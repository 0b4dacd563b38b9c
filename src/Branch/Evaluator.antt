-- ===== src/Branch/Evaluator.antt =====
-- pkg/controller/nodes/branch/evaluator.go: comparisons of a node's inputs, and their conjunctions.
use flytepropeller.Prelude.{String, Bool, ◌||◌, ◌&&◌, Option, none, some, Assoc, lookup}
use flytepropeller.Api.Error.{Result, ok, err}
use flytepropeller.Branch.Comparator.{Floats, Primitive, Operator, malformed, evaluate}

-- A literal that is a primitive, or any other.
pub data Literal (F : Type 0) : Type 0 where
  primitive : Primitive F → Literal F
  not_primitive : Literal F

pub data Operand (F : Type 0) : Type 0 where
  value : Primitive F → Operand F
  var : String → Operand F

pub data Conjunction : Type 0 where
  and or : Conjunction

-- `core.BooleanExpression`; `missing` is the nil one, or one with neither part.
pub data Expression (F : Type 0) : Type 0 where
  comparison : Operand F → Operand F → Operator → Expression F
  conjunction : Conjunction → Expression F → Expression F → Expression F
  missing : Expression F

infixl 5 ◌>>=◌
abbrev ◌>>=◌ {ℓ κ} : {A : Type ℓ} {B : Type κ} → Result A → (A → Result B) → Result B
ok a >>= f = f a
err e >>= f = err e

-- `nodeInputs`, which may be nil.
abbrev pub Inputs : Type 0 → Type 0
Inputs F = Option (Assoc (Literal F))

abbrev pub or_malformed {ℓ} : {A : Type ℓ} → Option A → Result A
or_malformed none = err malformed
or_malformed (some a) = ok a

abbrev pub combine : Conjunction → Bool → Bool → Bool
combine or l r = l || r
combine and l r = l && r

module _ (fs : Floats) (inputs : Inputs fs.Float) where
  abbrev find : String → Option (Literal fs.Float)
  unfolding lookup
  find x = elim inputs [ none ↦ none | some m ↦ lookup x m ]

  -- An operand's value before its kind is looked at: a variable that is not there is an error.
  unfoldable pub resolve_operand : Operand fs.Float → Result (Literal fs.Float)
  unfolding lookup
  resolve_operand (value p) = ok (primitive p)
  resolve_operand (var x) = or_malformed (find x)

  abbrev only_primitive : Literal fs.Float → Result (Primitive fs.Float)
  only_primitive (primitive p) = ok p
  only_primitive not_primitive = err malformed

  -- `EvaluateComparison`, with `Evaluate1`, `Evaluate2` and `EvaluateLiterals`.
  unfoldable pub evaluate_comparison : Operand fs.Float → Operand fs.Float → Operator → Result Bool
  unfolding resolve_operand evaluate
  evaluate_comparison l r op = do
    a ← resolve_operand l
    b ← resolve_operand r
    p ← only_primitive a
    q ← only_primitive b
    evaluate fs p q op

  -- `EvaluateBooleanExpression`: both sides of a conjunction are always evaluated.
  unfoldable pub evaluate_boolean_expression : Expression fs.Float → Result Bool
  unfolding evaluate_comparison
  evaluate_boolean_expression (comparison l r op) = evaluate_comparison l r op
  evaluate_boolean_expression missing = err malformed
  evaluate_boolean_expression (conjunction op l r) = do
    a ← evaluate_boolean_expression l
    b ← evaluate_boolean_expression r
    ok (combine op a b)
