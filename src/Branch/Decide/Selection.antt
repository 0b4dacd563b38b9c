-- ===== src/Branch/Decide/Selection.antt =====
-- What `DecideBranch` selects and skips, against a relation that says so.
use flytepropeller.Prelude.{
  String, Bool, true, false, ◌≡◌, ◌≢◌, ◌↔◌, subst, refl, sym, ap, ◌∙◌, Option, none, some, List, [],
  ◌∷◌, ◌++◌, map, append_assoc, append-nil,
}
use flytepropeller.Api.Error.{GoError, Result, ok, err}
use flytepropeller.Branch.Comparator.{Floats}
use flytepropeller.Branch.Evaluator.{Inputs, evaluate_boolean_expression}
use flytepropeller.Branch.Decide.{
  IfBlock, BranchNode, Choice, evaluate_if_block, next_block, else_if_loop, take_else, choose,
}

abbrev listed : Option String → List String
listed none = []
listed (some id) = id ∷ []

abbrev finish : Option String → Result Choice → Result Choice
finish e (err x) = err x
finish e (ok k) = ok (take_else e k)

abbrev picked : Option String → List String → Choice
picked selected skipped = record { selected = selected; skipped = skipped }

pub ok-injective : {j k : Choice} → ok j ≡ ok k → j ≡ k
ok-injective h = cc

err≢ok : (x : GoError) (r : Choice) → err x ≢ ok r
err≢ok x r h = cc

module _ (fs : Floats) (inputs : Inputs fs.Float) where
  -- The first block whose condition holds is selected, and those after it are skipped unlooked at,
  -- as is the `else` node; if there is none, the `else` node is selected, and no block is.
  pub data Picks : List (IfBlock fs.Float) → Option String → Choice → Type 0 where
    nothing_left : (e : Option String) → Picks [] e (record { selected = e; skipped = [] })
    here :
        (b : IfBlock fs.Float) (bs : List (IfBlock fs.Float)) (e : Option String)
        → evaluate_boolean_expression fs inputs b.condition ≡ ok true
        → Picks (b ∷ bs) e (record {
          selected = some b.then_node;
          skipped = map (λ x. x.then_node) bs ++ listed e;
        })
    later :
        (b : IfBlock fs.Float) (bs : List (IfBlock fs.Float)) (e : Option String) (k : Choice)
        → evaluate_boolean_expression fs inputs b.condition ≡ ok false
        → Picks bs e k
        → Picks (b ∷ bs) e (record { selected = k.selected; skipped = b.then_node ∷ k.skipped })

  choose-loop :
      (n : BranchNode fs.Float)
      → choose fs inputs n
        ≡ finish n.else_node (
            else_if_loop fs inputs
              (n.if_block ∷ n.else_if)
              (record { selected = none; skipped = [] }))
  unfolding choose else_if_loop next_block
  choose-loop n = go (evaluate_if_block fs inputs n.if_block [])
    where
      go :
          (r : Result Choice)
          → (elim r as (λ _. Result Choice) [
            | err e ↦ err e
            | ok k ↦ elim (else_if_loop fs inputs n.else_if k) as (λ _. Result Choice) [
              | err e ↦ err e
              | ok k' ↦ ok (take_else n.else_node k')
            ]
          ])
            ≡ finish n.else_node (elim r as (λ _. Result Choice) [
              | err e ↦ err e
              | ok k ↦ else_if_loop fs inputs n.else_if k
            ])
      go (err e) = refl
      go (ok k) = go' (else_if_loop fs inputs n.else_if k)
        where
          go' :
              (r : Result Choice)
              → (elim r as (λ _. Result Choice) [
                | err e ↦ err e
                | ok k' ↦ ok (take_else n.else_node k')
              ])
                ≡ finish n.else_node r
          go' (err e) = refl
          go' (ok k) = refl

  -- Once a block is selected, the rest is skipped.
  loop-selected :
      (id : String) (bs : List (IfBlock fs.Float)) (skipped : List String)
      → else_if_loop fs inputs bs (record { selected = some id; skipped = skipped })
        ≡ ok (record { selected = some id; skipped = skipped ++ map (λ x. x.then_node) bs })
  unfolding else_if_loop next_block
  loop-selected id [] skipped = ap (λ l. ok (picked (some id) l)) (sym (append-nil skipped))
  loop-selected id (b ∷ bs) skipped =
      loop-selected id bs (skipped ++ b.then_node ∷ [])
      ∙ ap (λ l. ok (picked (some id) l))
          (append_assoc skipped (b.then_node ∷ []) (map (λ x. x.then_node) bs))

  loop-true :
      (b : IfBlock fs.Float) (bs : List (IfBlock fs.Float)) (skipped : List String)
      → evaluate_boolean_expression fs inputs b.condition ≡ ok true
      → else_if_loop fs inputs (b ∷ bs) (picked none skipped)
        ≡ else_if_loop fs inputs bs (picked (some b.then_node) skipped)
  unfolding else_if_loop next_block evaluate_if_block
  loop-true b bs skipped h = rw (h, else_if_loop, next_block, evaluate_if_block) refl

  loop-false :
      (b : IfBlock fs.Float) (bs : List (IfBlock fs.Float)) (skipped : List String)
      → evaluate_boolean_expression fs inputs b.condition ≡ ok false
      → else_if_loop fs inputs (b ∷ bs) (picked none skipped)
        ≡ else_if_loop fs inputs bs (picked none (skipped ++ b.then_node ∷ []))
  unfolding else_if_loop next_block evaluate_if_block
  loop-false b bs skipped h = rw (h, else_if_loop, next_block, evaluate_if_block) refl

  loop-err :
      (b : IfBlock fs.Float) (bs : List (IfBlock fs.Float)) (skipped : List String) (x : GoError)
      → evaluate_boolean_expression fs inputs b.condition ≡ err x
      → else_if_loop fs inputs (b ∷ bs) (picked none skipped) ≡ err x
  unfolding else_if_loop next_block evaluate_if_block
  loop-err b bs skipped x h = rw (h, else_if_loop, next_block, evaluate_if_block) refl

  -- The loop does what the relation says, whatever was skipped before it.
  loop-Picks :
      (bs : List (IfBlock fs.Float)) (e : Option String) (k : Choice) (skipped : List String)
      → Picks bs e k
      → finish e (else_if_loop fs inputs bs (picked none skipped))
        ≡ ok (picked k.selected (skipped ++ k.skipped))
  unfolding else_if_loop
  loop-Picks _ _ _ skipped (nothing_left none) =
      ap (λ l. ok (picked none l)) (sym (append-nil skipped))
  loop-Picks _ _ _ skipped (nothing_left (some id)) =
      ap (λ l. ok (picked (some id) l)) (sym (append-nil skipped))
  loop-Picks _ _ _ skipped (here b bs e h) =
      ap (finish e) (loop-true b bs skipped h ∙ loop-selected b.then_node bs skipped) ∙ taken e
    where
      taken :
          (e : Option String)
          → finish e (ok (picked (some b.then_node) (skipped ++ map (λ x. x.then_node) bs)))
            ≡ ok (picked (some b.then_node) (skipped ++ (map (λ x. x.then_node) bs ++ listed e)))
      taken none =
          ap (λ l. ok (picked (some b.then_node) (skipped ++ l)))
            (sym (append-nil (map (λ x. x.then_node) bs)))
      taken (some id) =
          ap (λ l. ok (picked (some b.then_node) l))
            (append_assoc skipped (map (λ x. x.then_node) bs) (id ∷ []))
  loop-Picks _ _ _ skipped (later b bs e k h r) =
      ap (finish e) (loop-false b bs skipped h)
      ∙ loop-Picks bs e k (skipped ++ b.then_node ∷ []) r
      ∙ ap (λ l. ok (picked k.selected l)) (append_assoc skipped (b.then_node ∷ []) k.skipped)

  loop-ok :
      (bs : List (IfBlock fs.Float)) (e : Option String) (skipped : List String) (r : Choice)
      → finish e (else_if_loop fs inputs bs (picked none skipped)) ≡ ok r
      → (k : Choice) × Picks bs e k
  unfolding else_if_loop
  loop-ok [] e skipped r h = (picked e [], nothing_left e)
  loop-ok (b ∷ bs) e skipped r h = go (evaluate_boolean_expression fs inputs b.condition) refl (λ f.
      loop-ok bs e (skipped ++ b.then_node ∷ []) r
        (ap (finish e) (sym (loop-false b bs skipped f)) ∙ h))
    where
      go :
          (x : Result Bool)
          → evaluate_boolean_expression fs inputs b.condition ≡ x
          → (evaluate_boolean_expression fs inputs b.condition ≡ ok false
              → (k : Choice) × Picks bs e k)
          → (k : Choice) × Picks (b ∷ bs) e k
      go (err x) f next = absurd (err≢ok x r (ap (finish e) (sym (loop-err b bs skipped x f)) ∙ h))
      go (ok true) f next = (_, here b bs e f)
      go (ok false) f next = let (k, p) = next f in (_, later b bs e k f p)

  -- `DecideBranch` comes to a choice if and only if the relation holds of it: the first block
  -- whose condition holds is selected and all the others are skipped, or all blocks are skipped
  -- and the `else` node, if any, is selected; each condition up to the selected one has a value.
  pub choose-Picks :
      (n : BranchNode fs.Float) (k : Choice)
      → choose fs inputs n ≡ ok k ↔ Picks (n.if_block ∷ n.else_if) n.else_node k
  choose-Picks n k = (there, back)
    where
      bs : List (IfBlock fs.Float)
      bs = n.if_block ∷ n.else_if

      back : {k : Choice} → Picks bs n.else_node k → choose fs inputs n ≡ ok k
      back {k} p = choose-loop n ∙ loop-Picks bs n.else_node k [] p

      there : choose fs inputs n ≡ ok k → Picks bs n.else_node k
      there h =
          let (j, p) = loop-ok bs n.else_node [] k (sym (choose-loop n) ∙ h) in
          subst (Picks bs n.else_node) (ok-injective (sym (back p) ∙ h)) p
