-- ===== src/Compiler/Cycles/Fuel.antt =====
-- How much fuel the search for a cycle needs.
use flytepropeller.Prelude.{
  ℕ, zero, suc, ◌+◌, ◌≤◌, ◌<◌, ◌≡◌, ◌≢◌, refl, inl, inr, String, true, false, List, [], ◌∷◌, length,
  str_eq, str_eq_refl, same_text, if◌then◌else◌, Bool-cases, arith,
}
use flytepropeller.Compiler.Cycles.{
  has, Detection, clear, found, out_of_fuel, after_visit, first_found, visited, detector,
  from_start, detect_cycle,
}
use flytepropeller.Compiler.Cycles.Search.{or_true, or_right}

-- How many of the nodes are not being visited.
unfoldable outside : List String → List String → ℕ
outside [] v = 0
outside (n ∷ ns) v = let rest = outside ns v in if has n v then rest else rest + 1

outside-le : (ns v : List String) (id : String) → outside ns (id ∷ v) ≤ outside ns v
unfolding outside
outside-le [] v id = omega arith
outside-le (n ∷ ns) v id = ground (arith, outside-le ns v id)

outside-lt :
    (ns v : List String) (id : String)
    → has id ns ≡ true
    → has id v ≡ false
    → outside ns (id ∷ v) < outside ns v
unfolding outside
outside-lt [] v id h k = absurd (cc)
outside-lt (n ∷ ns) v id h k = elim (or_true (str_eq n id) (has id ns) h) [
  | inl e ↦ rw (same_text n id e, str_eq_refl id, k) (omega (arith, outside-le ns v id))
  | inr e ↦ ground (arith, outside-lt ns v id e k)
]

outside-length : (ns v : List String) → outside ns v ≤ length ns
unfolding outside
outside-length [] v = omega arith
outside-length (n ∷ ns) v = ground (arith, outside-length ns v)

after_fuel :
    (n : String) (d e : Detection)
    → d ≢ out_of_fuel
    → e ≢ out_of_fuel
    → after_visit n d e ≢ out_of_fuel
unfolding after_visit
after_fuel n (clear vs) (clear us) h k = λ x. cc
after_fuel n (clear vs) (found p) h k = λ x. cc
after_fuel n (clear vs) out_of_fuel h k = λ x. k refl
after_fuel n (found p) e h k = λ x. cc
after_fuel n out_of_fuel e h k = λ x. h refl

loop_fuel :
    (visit : String → Detection) (ns : List String)
    → ((n : String) → has n ns ≡ true → visit n ≢ out_of_fuel)
    → first_found visit ns ≢ out_of_fuel
unfolding first_found
loop_fuel visit [] h = λ x. cc
loop_fuel visit (n ∷ ns) h =
    after_fuel n (visit n) (first_found visit ns) (h n (rw (str_eq_refl n) refl))
      (loop_fuel visit ns (λ k m. h k (or_right (str_eq n k) (has k ns) m)))

visited_fuel : (id : String) (d : Detection) → d ≢ out_of_fuel → visited id d ≢ out_of_fuel
visited_fuel id (clear vs) h = λ x. cc
visited_fuel id (found p) h = λ x. cc
visited_fuel id out_of_fuel h = h

-- The edges lead to nodes of the list.
abbrev pub Closed : (String → List String) → List String → Type 0
Closed neighbors nodes = (a b : String) → has b (neighbors a) ≡ true → has b nodes ≡ true

module _ (neighbors : String → List String) (nodes : List String)
    (closed : Closed neighbors nodes) where
  detector_fuel :
      (fuel : ℕ) (visiting : List String) (id : String)
      → outside nodes visiting < fuel
      → has id nodes ≡ true
      → detector neighbors fuel visiting id ≢ out_of_fuel
  unfolding detector
  detector_fuel zero visiting id h m = absurd (omega arith)
  detector_fuel (suc fuel) visiting id h m = elim (Bool-cases (has id visiting)) [
    | inl e ↦ rw e (λ x. cc)
    | inr e ↦ rw e (
        visited_fuel id
          (first_found (λ n. detector neighbors fuel (id ∷ visiting) n) (neighbors id))
          (loop_fuel (λ n. detector neighbors fuel (id ∷ visiting) n) (neighbors id)
            (λ n k.
              detector_fuel fuel (id ∷ visiting) n (omega (arith, outside-lt nodes visiting id m e))
                (closed id n k))))
  ]

  from_fuel :
      (start : String) (d : Detection)
      → d ≢ out_of_fuel
      → from_start neighbors start d ≢ out_of_fuel
  from_fuel start (clear us) h = λ x. cc
  from_fuel start (found p) h = λ x. cc
  from_fuel start out_of_fuel h = h

  -- The search for a cycle ends: one more step of fuel than there are nodes is enough, where the
  -- start and the ends of the edges are among the nodes.
  pub detect_cycle-fuel :
      (start : String)
      → has start nodes ≡ true
      → detect_cycle neighbors (suc (length nodes)) start ≢ out_of_fuel
  unfolding detect_cycle
  detect_cycle-fuel start m =
      from_fuel start (detector neighbors (suc (length nodes)) [] start)
        (detector_fuel (suc (length nodes)) [] start (omega (arith, outside-length nodes [])) m)
