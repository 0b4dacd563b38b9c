-- ===== src/Compiler/Cycles/Search.antt =====
-- What it means that the search for a cycle finds none.
use flytepropeller.Prelude.{
  ℕ, zero, suc, ◌≡◌, ◌⊎◌, refl, sym, subst, inl, inr, String, Bool, true, false, ◌||◌, List, [],
  ◌∷◌, ◌++◌, str_eq, str_eq_refl, same_text, if-cases,
}
use flytepropeller.Compiler.Cycles.{
  has, Detection, clear, found, out_of_fuel, after_visit, first_found, visited, detector,
  from_start, detect_cycle,
}

or_false : (a b : Bool) → (a || b) ≡ false → (a ≡ false) × (b ≡ false)
or_false true b h = absurd (cc)
or_false false b h = (refl, h)

pub or_true : (a b : Bool) → (a || b) ≡ true → (a ≡ true) ⊎ (b ≡ true)
or_true true b h = inl refl
or_true false b h = inr h

pub or_right : (a b : Bool) → b ≡ true → (a || b) ≡ true
or_right true b h = refl
or_right false b h = h

has-left : (x : String) (vs us : List String) → has x vs ≡ true → has x (vs ++ us) ≡ true
has-left x [] us h = absurd (cc)
has-left x (v ∷ vs) us h = elim (or_true (str_eq v x) (has x vs) h) [
  | inl e ↦ rw e refl
  | inr e ↦ or_right (str_eq v x) (has x (vs ++ us)) (has-left x vs us e)
]

has-right : (x : String) (vs us : List String) → has x us ≡ true → has x (vs ++ us) ≡ true
has-right x [] us h = h
has-right x (v ∷ vs) us h = or_right (str_eq v x) (has x (vs ++ us)) (has-right x vs us h)

-- A way along the edges.
pub data Walk (neighbors : String → List String) : String → String → Type 0 where
  here : (a : String) → Walk neighbors a a
  step : (a b c : String) → has b (neighbors a) ≡ true → Walk neighbors b c → Walk neighbors a c

same_clear : (vs us : List String) → clear vs ≡ clear us → vs ≡ us
same_clear vs us h = cc

visited_clear :
    (id : String) (d : Detection) (vs : List String)
    → visited id d ≡ clear vs
    → (us : List String) × ((d ≡ clear us) × (vs ≡ id ∷ us))
visited_clear id (clear us) vs h = (us, (refl, sym (same_clear (id ∷ us) vs h)))
visited_clear id (found path) vs h = absurd (cc)
visited_clear id out_of_fuel vs h = absurd (cc)

pub after_clear :
    (n : String) (d e : Detection) (us : List String)
    → after_visit n d e ≡ clear us
    → (vs ws : List String) × ((d ≡ clear vs) × ((e ≡ clear ws) × (us ≡ vs ++ ws)))
unfolding after_visit
after_clear n (clear vs) (clear ws) us h =
    (vs, ws, (refl, (refl, sym (same_clear (vs ++ ws) us h))))
after_clear n (clear vs) (found path) us h = absurd (cc)
after_clear n (clear vs) out_of_fuel us h = absurd (cc)
after_clear n (found path) e us h = absurd (cc)
after_clear n out_of_fuel e us h = absurd (cc)

-- Of a loop that is clear, the visit of each neighbor is clear, and its nodes are among the visited.
first_found-clear :
    (visit : String → Detection) (ns us : List String) (n : String)
    → first_found visit ns ≡ clear us
    → has n ns ≡ true
    → (vs : List String) × ((visit n ≡ clear vs)
        × ((z : String) → has z vs ≡ true → has z us ≡ true))
unfolding first_found
first_found-clear visit [] us n h m = absurd (cc)
first_found-clear visit (k ∷ ns) us n h m =
    let (vs, ws, (d, (e, f))) = after_clear k (visit k) (first_found visit ns) us h in
    elim (or_true (str_eq k n) (has n ns) m) [
      | inl q ↦ (
        vs,
        (subst (λ x. visit x ≡ clear vs) (same_text k n q) d, λ z g. rw f (has-left z vs ws g)),
      )
      | inr q ↦
          let (xs, (a, b)) = first_found-clear visit ns ws n e q in
          (xs, (a, λ z g. rw f (has-right z vs ws (b z g))))
    ]

module _ (neighbors : String → List String) where
  -- A search that is clear: the node is new, and so is the loop over its neighbors.
  pub enter :
      (fuel : ℕ) (visiting : List String) (id : String) (vs : List String)
      → detector neighbors (suc fuel) visiting id ≡ clear vs
      → (has id visiting ≡ false)
        × ((us : List String) × ((first_found
                  (λ n. detector neighbors fuel (id ∷ visiting) n)
                  (neighbors id)
                ≡ clear us)
              × (vs ≡ id ∷ us)))
  unfolding detector
  enter fuel visiting id vs h = elim (if-cases (has id visiting) h) [
    | inl (_, e) ↦ absurd (cc)
    | inr (e, k) ↦ (e, visited_clear id _ vs k)
  ]

  abbrev Searched : List String → List String → String → Type 0
  Searched visiting vs z = (has z visiting ≡ false) × (has z vs ≡ true)

  Walk-Searched :
      (fuel : ℕ) (visiting vs : List String) (id z : String)
      → detector neighbors fuel visiting id ≡ clear vs
      → Walk neighbors id z
      → Searched visiting vs z
  unfolding detector
  Walk-Searched zero visiting vs _ _ h (here a) = absurd (cc)
  Walk-Searched zero visiting vs _ _ h (step a b c m w) = absurd (cc)
  Walk-Searched (suc fuel) visiting vs _ _ h (here a) =
      let (e, (us, (k, g))) = enter fuel visiting a vs h in (e, rw g (rw (str_eq_refl a) refl))
  Walk-Searched (suc fuel) visiting vs _ _ h (step a b c m w) =
      let (e, (us, (k, g))) = enter fuel visiting a vs h in
      let (ws, (d, sub)) =
        first_found-clear (λ n. detector neighbors fuel (a ∷ visiting) n) (neighbors a) us b k m in
      let (x, y) = Walk-Searched fuel (a ∷ visiting) ws b c d w in
      (
        (or_false (str_eq a c) (has c visiting) x).1,
        rw g (or_right (str_eq a c) (has c us) (sub c y)),
      )

  -- Somewhere below, the search went into the node with fuel left.
  abbrev SearchedAt : String → Type 0
  SearchedAt y =
      (fuel : ℕ) × (visiting vs : List String) × (detector neighbors fuel visiting y ≡ clear vs)

  Walk-SearchedAt :
      (fuel : ℕ) (visiting vs : List String) (id y : String)
      → detector neighbors fuel visiting id ≡ clear vs
      → Walk neighbors id y
      → SearchedAt y
  unfolding detector
  Walk-SearchedAt fuel visiting vs _ _ h (here a) = (fuel, visiting, vs, h)
  Walk-SearchedAt zero visiting vs _ _ h (step a b c m w) = absurd (cc)
  Walk-SearchedAt (suc fuel) visiting vs _ _ h (step a b c m w) =
      let (e, (us, (k, g))) = enter fuel visiting a vs h in
      let (ws, (d, sub)) =
        first_found-clear (λ n. detector neighbors fuel (a ∷ visiting) n) (neighbors a) us b k m in
      Walk-SearchedAt fuel (a ∷ visiting) ws b c d w

  no_way_back :
      (fuel : ℕ) (visiting vs : List String) (y b : String)
      → detector neighbors fuel visiting y ≡ clear vs
      → has b (neighbors y) ≡ true
      → Walk neighbors b y
      → ⊥
  unfolding detector
  no_way_back zero visiting vs y b h m w = absurd (cc)
  no_way_back (suc fuel) visiting vs y b h m w =
      let (e, (us, (k, g))) = enter fuel visiting y vs h in
      let (ws, (d, sub)) =
        first_found-clear (λ n. detector neighbors fuel (y ∷ visiting) n) (neighbors y) us b k m in
      let (x, z) = Walk-Searched fuel (y ∷ visiting) ws b y d w in
      absurd (clash (str_eq_refl y) (or_false (str_eq y y) (has y visiting) x).0)
    where
      clash : {b : Bool} → b ≡ true → b ≡ false → ⊥
      clash h k = cc

  started :
      (start : String) (d : Detection) (vs : List String)
      → from_start neighbors start d ≡ clear vs
      → d ≡ clear vs
  started start (clear us) vs h = h
  started start (found path) vs h = absurd (cc)
  started start out_of_fuel vs h = absurd (cc)

  -- Where the search from a node finds no cycle: no node that can be reached from it lies on a cycle,
  -- and each of them is among the nodes visited.
  pub detect_cycle-clear :
      (fuel : ℕ) (start : String) (vs : List String)
      → detect_cycle neighbors fuel start ≡ clear vs
      → (y : String) → Walk neighbors start y
      → (has y vs ≡ true) × ((b : String) → has b (neighbors y) ≡ true → Walk neighbors b y → ⊥)
  unfolding detect_cycle
  detect_cycle-clear fuel start vs h y w =
      let d = started start (detector neighbors fuel [] start) vs h in
      let (f, visiting, us, e) = Walk-SearchedAt fuel [] vs start y d w in
      ((Walk-Searched fuel [] vs start y d w).1, λ b m c. no_way_back f visiting us y b e m c)
