-- ===== src/Nodes/Bindings.antt =====
-- pkg/controller/nodes/resolve.go and output_resolver.go: the inputs of a node, from the outputs of
-- the nodes before it. A variable is a list of code points, and so are the keys of a map of
-- literals.
pub mod VarName
pub mod Resolving
use flytepropeller.Prelude.{
  ℕ, zero, suc, String, Bool, true, false, Option, none, some, List, [], ◌∷◌, str_eq, if◌then◌else◌,
  ite,
}
use flytepropeller.Api.Error.{Message, Message-discrete, GoError, Result, ok, err}
use flytepropeller.Api.Spec.{Node}
use flytepropeller.Nodes.Bindings.VarName.{ParsedVar, parse_var_name}

-- A map keyed by variables.
abbrev pub VarMap {ℓ} : Type ℓ → Type ℓ
VarMap V = List (Message × V)

module _ {ℓ} {V : Type ℓ} where
  unfoldable pub lookup_var : Message → VarMap V → Option V
  lookup_var k [] = none
  lookup_var k ((j, v) ∷ m) = let rest = lookup_var k m in ite (Message-discrete j k) (some v) rest

  unfoldable pub insert_var : Message → V → VarMap V → VarMap V
  insert_var k v [] = (k, v) ∷ []
  insert_var k v ((j, w) ∷ m) =
      let rest = insert_var k v m in ite (Message-discrete j k) ((k, v) ∷ m) ((j, w) ∷ rest)

-- `core.Literal`: a scalar by a number; `nil` is the nil pointer, `empty` a literal without a value.
mutual
  pub data Literal : Type 0 where
    nil empty : Literal
    scalar : ℕ → Literal
    collection : Literals → Literal
    literal_map : NamedLiterals → Literal

  pub data Literals : Type 0 where
    none_left : Literals
    and_then : Literal → Literals → Literals

  pub data NamedLiterals : Type 0 where
    no_entries : NamedLiterals
    entry : Message → Literal → NamedLiterals → NamedLiterals

-- `core.BindingData`.
mutual
  pub data BindingData : Type 0 where
    nil empty : BindingData
    scalar : ℕ → BindingData
    promise : String → Message → BindingData
    collection : Bindings → BindingData
    binding_map : NamedBindings → BindingData

  pub data Bindings : Type 0 where
    none_left : Bindings
    and_then : BindingData → Bindings → Bindings

  pub data NamedBindings : Type 0 where
    no_entries : NamedBindings
    entry : Message → BindingData → NamedBindings → NamedBindings

-- `v1alpha1.Alias`.
pub record Alias : Type 0 where
  pub var : Message
  pub alias : Message

-- What the resolver reads: the nodes, their aliases and the directory of their outputs, and the
-- files of outputs, in which the map of the literals may be nil.
pub record Sources : Type 0 where
  pub node : String → Option Node
  pub output_alias : Node → List Alias
  pub output_dir : String → String
  pub outputs_file : String → String
  pub read_outputs : String → Result (Option (VarMap Literal))

-- `CreateAliasMap`, from the first alias to the last.
unfoldable pub create_alias_map : VarMap Message → List Alias → VarMap Message
unfolding insert_var
create_alias_map m [] = m
create_alias_map m (a ∷ rest) = create_alias_map (insert_var a.alias a.var m) rest

abbrev not_found : String → GoError
not_found id = GoError.coded "OutputsNotFoundError" id

abbrev bad_specification : String → GoError
bad_specification id = GoError.coded "BadSpecificationError" id

-- The element of a list of literals, where there is one.
unfoldable pub literal_at : ℕ → Literals → Option Literal
literal_at i none_left = none
literal_at zero (and_then l ls) = some l
literal_at (suc i) (and_then l ls) = literal_at i ls

abbrev actual : Message → Option Message → Message
actual v none = v
actual v (some w) = w

-- `resolveSubtaskOutput`, once the file is read.
unfoldable pub pick_subtask : String → ℕ → Message → Option (VarMap Literal) → Result Literal
unfolding lookup_var literal_at
pick_subtask id i v none = err (not_found id)
pick_subtask id i v (some m) = elim (lookup_var v m) [
  | some (Literal.collection ls) ↦ elim (literal_at i ls) [
    | some l ↦ ok l
    | none ↦ err (not_found id)
  ]
  | _ ↦ err (bad_specification id)
]

-- `resolveSingleOutput`, once the file is read.
unfoldable pub pick_single : String → Message → Option (VarMap Literal) → Result Literal
unfolding lookup_var
pick_single id v none = err (not_found id)
pick_single id v (some m) = elim (lookup_var v m) [ some l ↦ ok l | none ↦ err (not_found id) ]

abbrev with_file :
    String
    → Result (Option (VarMap Literal))
    → (Option (VarMap Literal) → Result Literal)
    → Result Literal
with_file id (err e) k = err (GoError.wrapped "CausedByError" id e)
with_file id (ok m) k = k m

unfoldable pub pick_output :
    String → Option ℕ → Message → Result (Option (VarMap Literal)) → Result Literal
unfolding pick_subtask pick_single
pick_output id none v file = with_file id file (pick_single id v)
pick_output id (some i) v file = with_file id file (pick_subtask id i v)

-- `ExtractOutput` with the name that is parsed.
unfoldable pub extract_parsed : Sources → Node → ParsedVar → Result Literal
unfolding pick_output create_alias_map lookup_var
extract_parsed s n v = elim v.err [
  | some e ↦ err e
  | none ↦
      pick_output n.id v.idx
        (actual v.name (lookup_var v.name (create_alias_map [] (s.output_alias n))))
        (s.read_outputs (s.outputs_file (s.output_dir n.id)))
]

-- `ExtractOutput`.
unfoldable pub extract_output : Sources → Node → Message → Result Literal
unfolding extract_parsed parse_var_name
extract_output s n v = extract_parsed s n (parse_var_name v)

-- The promise of another node's output.
unfoldable pub resolve_promise : Option Sources → String → Message → Result Literal
unfolding extract_output
resolve_promise none id v = err (GoError.coded "IllegalStateError" id)
resolve_promise (some s) id v =
    if str_eq id "" then err (bad_specification "missing") else elim (s.node id) [
      | none ↦ err (GoError.coded "IllegalStateError" "id")
      | some n ↦ extract_output s n v
    ]

abbrev listed : Result Literals → Result Literal
listed (ok ls) = ok (Literal.collection ls)
listed (err e) = err e

abbrev mapped : Result NamedLiterals → Result Literal
mapped (ok m) = ok (Literal.literal_map m)
mapped (err e) = err e

-- A failure ends the loop; the rest is not looked at.
abbrev prepend : Result Literal → Result Literals → Result Literals
prepend (err e) rest = err e
prepend (ok l) (err e) = err e
prepend (ok l) (ok ls) = ok (Literals.and_then l ls)

abbrev prepend_entry : Message → Result Literal → Result NamedLiterals → Result NamedLiterals
prepend_entry k (err e) rest = err e
prepend_entry k (ok l) (err e) = err e
prepend_entry k (ok l) (ok m) = ok (NamedLiterals.entry k l m)

-- `ResolveBindingData`.
unfoldable mutual
  unfolding resolve_promise

  pub resolve_binding_data : Option Sources → BindingData → Result Literal
  resolve_binding_data s BindingData.nil = ok Literal.nil
  resolve_binding_data s BindingData.empty = ok Literal.empty
  resolve_binding_data s (BindingData.scalar n) = ok (Literal.scalar n)
  resolve_binding_data s (BindingData.promise id v) = resolve_promise s id v
  resolve_binding_data s (BindingData.collection bs) = listed (resolve_all s bs)
  resolve_binding_data s (BindingData.binding_map m) = mapped (resolve_entries s m)

  pub resolve_all : Option Sources → Bindings → Result Literals
  resolve_all s Bindings.none_left = ok Literals.none_left
  resolve_all s (Bindings.and_then b bs) = prepend (resolve_binding_data s b) (resolve_all s bs)

  pub resolve_entries : Option Sources → NamedBindings → Result NamedLiterals
  resolve_entries s NamedBindings.no_entries = ok NamedLiterals.no_entries
  resolve_entries s (NamedBindings.entry k b m) =
      prepend_entry k (resolve_binding_data s b) (resolve_entries s m)

-- `v1alpha1.Binding`.
pub record Binding : Type 0 where
  pub var : Message
  pub binding : BindingData

-- The loop of `Resolve`; the error names the node.
unfoldable pub resolve_from :
    Option Sources → String → VarMap Literal → List Binding → Result (VarMap Literal)
unfolding insert_var
resolve_from s id m [] = ok m
resolve_from s id m (b ∷ bs) = elim (resolve_binding_data s b.binding) [
  | err e ↦ err (GoError.wrapped "BindingResolutionError" id e)
  | ok l ↦ resolve_from s id (insert_var b.var l m) bs
]

-- `Resolve`.
unfoldable pub resolve : Option Sources → String → List Binding → Result (VarMap Literal)
unfolding resolve_from
resolve s id bs = resolve_from s id [] bs
