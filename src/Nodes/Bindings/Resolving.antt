-- ===== src/Nodes/Bindings/Resolving.antt =====
-- What `Resolve` comes to: each variable has the literal of its last binding.
use flytepropeller.Prelude.{
  String, ◌≡◌, ◌∙◌, refl, sym, ap, All, Option, none, some, List, [], ◌∷◌, ite, arith,
}
use flytepropeller.Api.Error.{Message, Message-discrete, GoError, Result, ok, err}
use flytepropeller.Nodes.Bindings.{
  VarMap, lookup_var, insert_var, Literal, Sources, Binding, resolve_binding_data, resolve_from,
  resolve,
}

module _ {ℓ} {V : Type ℓ} where
  pub lookup_var-insert_var :
      (k j : Message) (v : V) (m : VarMap V)
      → lookup_var j (insert_var k v m) ≡ ite (Message-discrete k j) (some v) (lookup_var j m)
  unfolding lookup_var insert_var
  lookup_var-insert_var k j v [] = refl
  lookup_var-insert_var k j v ((i, w) ∷ m) = ground (arith, lookup_var-insert_var k j v m)

-- The last binding of a variable.
abbrev pub later : Option Binding → Option Binding → Option Binding
later none first = first
later (some b) first = some b

unfoldable pub last_binding : Message → List Binding → Option Binding
last_binding v [] = none
last_binding v (b ∷ bs) = later (last_binding v bs) (ite (Message-discrete b.var v) (some b) none)

abbrev pub value_of : Result Literal → Option Literal
value_of (ok l) = some l
value_of (err e) = none

-- The literal that a binding gives, or else the one that is there.
abbrev pub value_or : Option Sources → Option Literal → Option Binding → Option Literal
value_or s before none = before
value_or s before (some b) = value_of (resolve_binding_data s b.binding)

bound_ok {ℓ} :
    {B : Type ℓ} (f : GoError → GoError) (r : Result Literal) (k : Literal → Result B) (b : B)
    → (elim r [ err e ↦ err (f e) | ok l ↦ k l ]) ≡ ok b
    → (l : Literal) × (r ≡ ok l) × (k l ≡ ok b)
bound_ok f (ok l) k b h = (l, refl, h)
bound_ok f (err e) k b h = absurd (cc)

same_map : (m n : VarMap Literal) → ok m ≡ ok n → m ≡ n
same_map m n h = cc

module _ (s : Option Sources) (id : String) where
  later_value :
      (v : Message) (b : Binding) (l : Literal) (m : VarMap Literal) (o : Option Binding)
      → resolve_binding_data s b.binding ≡ ok l
      → value_or s (lookup_var v (insert_var b.var l m)) o
        ≡ value_or s (lookup_var v m) (later o (ite (Message-discrete b.var v) (some b) none))
  later_value v b l m none e = ground (arith, lookup_var-insert_var b.var v l m)
  later_value v b l m (some k) e = refl

  resolve_from_value :
      (v : Message) (bs : List Binding) (before after : VarMap Literal)
      → resolve_from s id before bs ≡ ok after
      → lookup_var v after ≡ value_or s (lookup_var v before) (last_binding v bs)
  unfolding resolve_from last_binding
  resolve_from_value v [] before after h = ap (lookup_var v) (sym (same_map before after h))
  resolve_from_value v (b ∷ bs) before after h =
      let (l, e, k) =
        bound_ok (GoError.wrapped "BindingResolutionError" id) (resolve_binding_data s b.binding)
          (λ l. resolve_from s id (insert_var b.var l before) bs) after h in
      resolve_from_value v bs (insert_var b.var l before) after k
      ∙ later_value v b l before (last_binding v bs) e

  abbrev pub IsResolved : Binding → Type 0
  IsResolved b = (l : Literal) × (resolve_binding_data s b.binding ≡ ok l)

  resolve_from-IsResolved :
      (bs : List Binding) (before after : VarMap Literal)
      → resolve_from s id before bs ≡ ok after
      → All IsResolved bs
  unfolding resolve_from
  resolve_from-IsResolved [] before after h = tt
  resolve_from-IsResolved (b ∷ bs) before after h =
      let (l, e, k) =
        bound_ok (GoError.wrapped "BindingResolutionError" id) (resolve_binding_data s b.binding)
          (λ l. resolve_from s id (insert_var b.var l before) bs) after h in
      ((l, e), resolve_from-IsResolved bs (insert_var b.var l before) after k)

  -- Where the inputs of a node are resolved, each of its bindings has a literal, and each variable
  -- has that of its last binding; a variable without a binding has none.
  pub resolve_value :
      (bs : List Binding) (m : VarMap Literal)
      → resolve s id bs ≡ ok m
      → All IsResolved bs × ((v : Message) → lookup_var v m ≡ value_or s none (last_binding v bs))
  unfolding resolve lookup_var
  resolve_value bs m h = (resolve_from-IsResolved bs [] m h, λ v. resolve_from_value v bs [] m h)
