-- ===== src/Compiler/Cycles/Rank.antt =====
-- A search that finds no cycle gives its nodes a rank: how many visits it takes below them.
use flytepropeller.Prelude.{
  ℕ, zero, suc, ◌≤◌, ◌<◌, ◌≡◌, refl, subst, inl, inr, String, Bool, true, false, List, [], ◌∷◌,
  length, length-append, str_eq, same_text, arith,
}
use flytepropeller.Compiler.Cycles.{
  has, Detection, clear, found, out_of_fuel, after_visit, first_found, detector,
}
use flytepropeller.Compiler.Cycles.Search.{or_true, or_right, after_clear, enter}

-- Of a loop that is clear, the visit of each neighbor is clear and no longer than the whole.
first_found-length :
    (visit : String → Detection) (ns us : List String) (n : String)
    → first_found visit ns ≡ clear us
    → has n ns ≡ true
    → (vs : List String) × ((visit n ≡ clear vs) × (length vs ≤ length us))
unfolding first_found
first_found-length visit [] us n h m = absurd (cc)
first_found-length visit (k ∷ ns) us n h m =
    let (vs, ws, (d, (e, f))) = after_clear k (visit k) (first_found visit ns) us h in
    let long = length-append vs ws in
    elim (or_true (str_eq k n) (has n ns) m) [
      | inl q ↦
          (vs, (subst (λ x. visit x ≡ clear vs) (same_text k n q) d, rw f (omega (arith, long))))
      | inr q ↦
          let (xs, (a, b)) = first_found-length visit ns ws n e q in
          (xs, (a, rw f (omega (arith, long))))
    ]

first_found_again :
    (v v' : String → Detection) (ns us : List String)
    → ((n : String) (ws : List String) → v n ≡ clear ws → v' n ≡ clear ws)
    → first_found v ns ≡ clear us
    → first_found v' ns ≡ clear us
unfolding first_found after_visit
first_found_again v v' [] us k h = h
first_found_again v v' (n ∷ ns) us k h =
    let (vs, ws, (d, (e, f))) = after_clear n (v n) (first_found v ns) us h in
    rw (k n vs d, first_found_again v v' ns ws k e, f) refl

not_true : (b : Bool) → (b ≡ true → ⊥) → b ≡ false
not_true true h = absurd (h refl)
not_true false h = refl

module _ (neighbors : String → List String) where
  -- A search that is clear is so with more fuel and fewer nodes that are being visited.
  detector_again :
      (f g : ℕ) (v v' : List String) (id : String) (vs : List String)
      → f ≤ g
      → ((z : String) → has z v' ≡ true → has z v ≡ true)
      → detector neighbors f v id ≡ clear vs
      → detector neighbors g v' id ≡ clear vs
  unfolding detector
  detector_again zero g v v' id vs l sub h = absurd (cc)
  detector_again (suc f) zero v v' id vs l sub h = absurd (omega arith)
  detector_again (suc f) (suc g) v v' id vs l sub h =
      let (e, (us, (k, q))) = enter neighbors f v id vs h in
      let new : has id v' ≡ false = not_true (has id v') (λ x. clash (sub id x) e) in
      rw
        (
          new,
          first_found_again (λ n. detector neighbors f (id ∷ v) n)
              (λ n. detector neighbors g (id ∷ v') n) (neighbors id) us
              (λ n ws d. detector_again f g (id ∷ v) (id ∷ v') n ws (omega arith) (wider id) d) k,
          q,
        )
        refl
    where
      clash : {b : Bool} → b ≡ true → b ≡ false → ⊥
      clash x y = cc

      wider : (x z : String) → has z (x ∷ v') ≡ true → has z (x ∷ v) ≡ true
      wider x z m = elim (or_true (str_eq x z) (has z v') m) [
        | inl q ↦ rw q refl
        | inr q ↦ or_right (str_eq x z) (has z v) (sub z q)
      ]

  -- The nodes from which the search finds no cycle.
  abbrev pub IsClear : ℕ → String → Type 0
  IsClear f id = (us : List String) × (detector neighbors f [] id ≡ clear us)

  abbrev pub visits : Detection → ℕ
  visits (clear vs) = length vs
  visits (found p) = 0
  visits out_of_fuel = 0

  -- How many visits the search makes.
  abbrev pub rank : ℕ → String → ℕ
  rank f id = visits (detector neighbors f [] id)

  pub IsClear-below :
      (f : ℕ) (y d : String)
      → IsClear f y
      → has d (neighbors y) ≡ true
      → IsClear f d × (rank f d < rank f y)
  unfolding detector
  IsClear-below zero y d (us, h) m = absurd (cc)
  IsClear-below (suc f) y d (vs, h) m =
      let (e, (us, (k, q))) = enter neighbors f [] y vs h in
      let (ws, (a, b)) =
        first_found-length (λ n. detector neighbors f (y ∷ []) n) (neighbors y) us d k m in
      let again = detector_again f (suc f) (y ∷ []) [] d ws (omega arith) (λ z x. absurd (cc)) a in
      ((ws, again), ranked again h q b)
    where
      ranked :
          {ws us vs : List String}
          → detector neighbors (suc f) [] d ≡ clear ws
          → detector neighbors (suc f) [] y ≡ clear vs
          → vs ≡ y ∷ us
          → length ws ≤ length us
          → rank (suc f) d < rank (suc f) y
      ranked a h q b = rw (a, h, q) (omega arith)
