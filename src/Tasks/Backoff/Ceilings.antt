-- ===== src/Tasks/Backoff/Ceilings.antt =====
-- What the ceilings remember of a refused request.
use flytepropeller.Prelude.{
  ℕ, ◌≤◌, ◌≡◌, refl, sym, ap, ◌∙◌, subst, inl, inr, String, Bool, true, false, not, ◌&&◌, ◌||◌,
  Option, none, some, [], ◌∷◌, Assoc, lookup, insert, lookup-insert, str_eq, str_eq_refl, same_text,
  ltb, ◌==◌, if-cases, Bool-cases, arith,
}
use flytepropeller.Api.Error.{GoError}
use flytepropeller.Tasks.Backoff.{
  Kube, BackOffHandler, is_blocking, back_off, is_eligible, is_lower, update_ceiling, update_all,
  back_off_error, refused, tried, handle,
}

module _ (k : Kube) where
  -- The ceiling of a resource is at most a quantity, in whole numbers.
  abbrev Low : String → k.Quantity → Assoc k.Quantity → Type 0
  Low r q m = (c : k.Quantity) × ((lookup r m ≡ some c) × (k.value c ≤ k.value q))

  -- A quantity that reaches every ceiling that is not above it in whole numbers.
  abbrev pub IsWhole : k.Quantity → Type 0
  IsWhole q = (c : k.Quantity) → k.value c ≤ k.value q → k.at_least q c ≡ true

  same_some : (p q : k.Quantity) → ◌≡◌ {A = Option k.Quantity} (some p) (some q) → p ≡ q
  same_some p q h = cc

  and-false : (b : Bool) → (b && false) ≡ false
  and-false true = refl
  and-false false = refl

  lower_le : (a b : ℕ) → ltb a b ≡ true → a ≤ b
  lower_le a b h = ground arith

  low_after :
      (r : String) (q : k.Quantity) (o : Option k.Quantity)
      → is_lower k q o ≡ false
      → (c : k.Quantity) × ((o ≡ some c) × (k.value c ≤ k.value q))
  low_after r q none h = absurd (cc)
  low_after r q (some c) h = (c, (refl, ground arith))

  update_self-Low :
      (r : String) (q : k.Quantity) (m : Assoc k.Quantity) → Low r q (update_ceiling k r q m)
  unfolding update_ceiling
  update_self-Low r q m = elim (Bool-cases (is_lower k q (lookup r m))) [
    | inl e ↦ rw e (q, (lookup-insert r r q m ∙ rw (str_eq_refl r) refl, omega arith))
    | inr e ↦ rw e (low_after r q (lookup r m) e)
  ]

  insert-Low :
      (r j : String) (q p : k.Quantity) (m : Assoc k.Quantity)
      → is_lower k p (lookup j m) ≡ true
      → Low r q m
      → Low r q (insert j p m)
  insert-Low r j q p m l (c, (e, h)) = elim (Bool-cases (str_eq j r)) [
    | inl s ↦ (
      p,
      (
        lookup-insert j r p m ∙ rw s refl,
        omega (
          arith,
          lower_le (k.value p) (k.value c)
              (subst (λ o. is_lower k p o ≡ true) (ap (λ i. lookup i m) (same_text j r s) ∙ e) l),
        ),
      ),
    )
    | inr s ↦ (c, (lookup-insert j r p m ∙ rw s e, h))
  ]

  update-Low :
      (r j : String) (q p : k.Quantity) (m : Assoc k.Quantity)
      → Low r q m
      → Low r q (update_ceiling k j p m)
  unfolding update_ceiling
  update-Low r j q p m h = elim (Bool-cases (is_lower k p (lookup j m))) [
    | inl e ↦ rw e (insert-Low r j q p m e h)
    | inr e ↦ rw e h
  ]

  update_all-Low :
      (r : String) (q : k.Quantity) (rs m : Assoc k.Quantity)
      → Low r q m
      → Low r q (update_all k rs m)
  unfolding update_all
  update_all-Low r q [] m h = h
  update_all-Low r q ((j, p) ∷ rs) m h =
      update_all-Low r q rs (update_ceiling k j p m) (update-Low r j q p m h)

  reported-Low :
      (r : String) (q : k.Quantity) (rs m : Assoc k.Quantity)
      → lookup r rs ≡ some q
      → Low r q (update_all k rs m)
  unfolding update_all lookup
  reported-Low r q [] m h = absurd (cc)
  reported-Low r q ((j, p) ∷ rs) m h = elim (if-cases (str_eq j r) h) [
    | inl (s, e) ↦
        subst (λ x. Low r x (update_all k rs (update_ceiling k j p m))) (same_some p q e)
          (subst (λ i. Low i p (update_all k rs (update_ceiling k j p m))) (same_text j r s)
            (update_all-Low j p rs (update_ceiling k j p m) (update_self-Low j p m)))
    | inr (s, e) ↦ reported-Low r q rs (update_ceiling k j p m) e
  ]

  Low-is_eligible :
      (r : String) (q : k.Quantity) (rs m : Assoc k.Quantity)
      → IsWhole q
      → lookup r rs ≡ some q
      → Low r q m
      → is_eligible k rs m ≡ false
  unfolding is_eligible lookup
  Low-is_eligible r q [] m w h l = absurd (cc)
  Low-is_eligible r q ((j, p) ∷ rs) m w h l = elim (if-cases (str_eq j r) h) [
    | inl (s, e) ↦
        let (c, (f, g)) = l in
        rw (ap (λ i. lookup i m) (same_text j r s) ∙ f)
          (rw (subst (λ x. k.at_least x c ≡ true) (sym (same_some p q e)) (w c g)) refl)
    | inr (s, e) ↦ rw (Low-is_eligible r q rs m w e l) (and-false _)
  ]

  refused_base :
      (now : ℕ) (e : GoError) (h : BackOffHandler k)
      → (refused k now e h).back_off_base_second ≡ h.back_off_base_second
  unfolding refused back_off
  refused_base now e h = ground arith

  refused_ceilings :
      (now : ℕ) (e : GoError) (h : BackOffHandler k)
      → k.is_resource_quota_exceeded e ≡ true
      → (refused k now e h).ceilings ≡ update_all k (k.requested e) h.ceilings
  unfolding refused back_off
  refused_ceilings now e h x = ground arith

  blocked : (now next : ℕ) → now ≤ next → not (ltb next now) ≡ true
  blocked now next h = ground arith

  module _ {ℓ} {S : Type ℓ} where
    refused_state :
        (now : ℕ) (op : S → S × Option GoError) (request : Assoc k.Quantity) (h : BackOffHandler k)
        (s s' : S) (e : GoError)
        → (h.back_off_base_second == 0) ≡ false
        → (not (is_blocking k now h) || is_eligible k request h.ceilings) ≡ true
        → op s ≡ (s', some e)
        → k.is_resource_quota_exceeded e ≡ true
        → (handle k now op request h s).0.0 ≡ refused k now e h
    unfolding handle tried
    refused_state now op request h s s' e b t o x = rw (b, t, o, x) refl

    turned_away :
        (later : ℕ) (again : S → S × Option GoError) (wanted : Assoc k.Quantity)
        (h : BackOffHandler k) (u : S)
        → (h.back_off_base_second == 0) ≡ false
        → is_eligible k wanted h.ceilings ≡ false
        → later ≤ h.next_eligible_time
        → handle k later again wanted h u ≡ ((h, u), some (back_off_error k))
    unfolding handle
    turned_away later again wanted h u b t l = rw (b, blocked later h.next_eligible_time l, t) refl

    -- An operation that was tried and refused for a quota, which its error reports as exceeded by a
    -- quantity of a resource: while the time of the next try has not passed, a request of that
    -- quantity of the resource is turned away without the operation being called, and changes
    -- nothing. The quantity reaches every ceiling that is not above it in whole numbers.
    pub handle-back_off_error :
        (now : ℕ) (op : S → S × Option GoError) (request : Assoc k.Quantity) (h : BackOffHandler k)
        (s s' : S) (e : GoError) (r : String) (q : k.Quantity)
        → (h.back_off_base_second == 0) ≡ false
        → (not (is_blocking k now h) || is_eligible k request h.ceilings) ≡ true
        → op s ≡ (s', some e)
        → k.is_resource_quota_exceeded e ≡ true
        → lookup r (k.requested e) ≡ some q
        → IsWhole q
        → (later : ℕ) (again : S → S × Option GoError) (wanted : Assoc k.Quantity) (u : S)
        → later ≤ (handle k now op request h s).0.0.next_eligible_time
        → lookup r wanted ≡ some q
        → handle k later again wanted (handle k now op request h s).0.0 u
          ≡ (((handle k now op request h s).0.0, u), some (back_off_error k))
    handle-back_off_error now op request h s s' e r q b t o x m w later again wanted u l v =
        let g = refused_state now op request h s s' e b t o x in
        turned_away later again wanted (handle k now op request h s).0.0 u
          (subst (λ y. (y.back_off_base_second == 0) ≡ false) (sym g) (rw (refused_base now e h) b))
          (subst (λ y. is_eligible k wanted y.ceilings ≡ false) (sym g)
            (rw (refused_ceilings now e h x) (
              Low-is_eligible r q wanted (update_all k (k.requested e) h.ceilings) w v
                (reported-Low r q (k.requested e) h.ceilings m))))
          l
