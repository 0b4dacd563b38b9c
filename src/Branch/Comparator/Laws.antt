-- ===== src/Branch/Comparator/Laws.antt =====
-- How the operators of a comparison relate.
use flytepropeller.Prelude.{Bool, not, ◌≡◌, arith}
use flytepropeller.Api.Error.{Result, ok, err}
use flytepropeller.Branch.Comparator.{
  Floats, Primitive, Operator, compare_with, compare_booleans, evaluate,
}

-- The result with its value negated.
abbrev pub negated : Result Bool → Result Bool
negated (ok b) = ok (not b)
negated (err e) = err e

module _ (fs : Floats) where
  -- `<` is the negation of `>=`, `<=` of `>`, and `!=` of `==`, on any two values, with the same
  -- error where a comparison is not defined.
  pub evaluate-negated :
      (a b : Primitive fs.Float)
      → (evaluate fs a b Operator.lt ≡ negated (evaluate fs a b Operator.gte))
        × (evaluate fs a b Operator.lte ≡ negated (evaluate fs a b Operator.gt))
        × (evaluate fs a b Operator.neq ≡ negated (evaluate fs a b Operator.eq))
  unfolding evaluate compare_booleans compare_with
  evaluate-negated a b = ground arith
