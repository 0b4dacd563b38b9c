-- ===== src/Tasks/Backoff.antt =====
-- pkg/controller/nodes/task/backoff/handler.go: the timer, the ceilings of the resources that were
-- refused, and `Handle`. The maps of atomic values are association lists.
pub mod Ceilings
use flytepropeller.Prelude.{
  ◌-◌, suc, ℕ, ◌+◌, ◌*◌, String, Bool, true, false, not, ◌&&◌, ◌||◌, Option, none, some, List, [],
  ◌∷◌, Assoc, lookup, insert, map, u32, leb, ltb, ◌==◌, if◌then◌else◌,
}
use flytepropeller.Prelude.Int.{ℤ, pos, negsuc}
use flytepropeller.Api.Error.{GoError}

-- `resource.Quantity` and the errors of Kubernetes, which are other packages: `at_least a b` is
-- `a.Cmp(b) >= 0`, `value` rounds up to a whole number, `inf` is the largest quantity.
-- `nanoseconds base exponent` is the product of a second and the power, which the source takes of
-- floats; `requested` reads the quantities out of an error's text.
pub record Kube : Type 1 where
  pub Quantity : Type 0
  pub value : Quantity → ℕ
  pub at_least : Quantity → Quantity → Bool
  pub inf : Quantity
  pub nanoseconds : ℕ → ℕ → ℤ
  pub is_resource_quota_exceeded : GoError → Bool
  pub is_too_many_requests : GoError → Bool
  pub is_server_timeout : GoError → Bool
  pub requested : GoError → Assoc Quantity

module _ (k : Kube) where
  -- `ComputeResourceAwareBackOffHandler`: the settings, the timer and the ceilings.
  pub record BackOffHandler : Type 0 where
    pub back_off_base_second : ℕ
    pub max_back_off_duration : ℕ
    pub back_off_exponent : ℕ
    pub next_eligible_time : ℕ
    pub ceilings : Assoc k.Quantity

  -- `isBlocking`.
  abbrev pub is_blocking : ℕ → BackOffHandler → Bool
  is_blocking now h = not (ltb h.next_eligible_time now)

  -- A duration, which is negative where the product has overflowed, against the longest one, and
  -- the time after it.
  abbrev pub exceeds : ℤ → ℕ → Bool
  exceeds (pos d) most = ltb most d
  exceeds (negsuc d) most = false

  abbrev pub add_duration : ℕ → ℤ → ℕ
  add_duration now (pos d) = now + d
  add_duration now (negsuc d) = now - suc d

  -- `backOff`.
  unfoldable pub back_off : ℕ → BackOffHandler → BackOffHandler
  back_off now h =
      let d : ℤ = k.nanoseconds h.back_off_base_second h.back_off_exponent in
      if exceeds d h.max_back_off_duration
      then record h { next_eligible_time = now + h.max_back_off_duration }
      else record h {
        back_off_exponent = u32 (h.back_off_exponent + 1);
        next_eligible_time = add_duration now d;
      }

  abbrev pub below_ceiling : k.Quantity → Option k.Quantity → Bool
  below_ceiling q none = true
  below_ceiling q (some c) = not (k.at_least q c)

  -- `isEligible`.
  unfoldable pub is_eligible : Assoc k.Quantity → Assoc k.Quantity → Bool
  unfolding lookup
  is_eligible [] m = true
  is_eligible ((r, q) ∷ rs) m = below_ceiling q (lookup r m) && is_eligible rs m

  abbrev pub is_lower : k.Quantity → Option k.Quantity → Bool
  is_lower q none = true
  is_lower q (some c) = ltb (k.value q) (k.value c)

  -- `update`.
  unfoldable pub update_ceiling : String → k.Quantity → Assoc k.Quantity → Assoc k.Quantity
  unfolding lookup insert
  update_ceiling r q m = if is_lower q (lookup r m) then insert r q m else m

  -- `updateAll`.
  unfoldable pub update_all : Assoc k.Quantity → Assoc k.Quantity → Assoc k.Quantity
  unfolding update_ceiling
  update_all [] m = m
  update_all ((r, q) ∷ rs) m = update_all rs (update_ceiling r q m)

  -- `resetAll` of the ceilings.
  unfoldable pub reset_all : Assoc k.Quantity → Assoc k.Quantity
  reset_all [] = []
  reset_all ((r, _) ∷ m) = (r, k.inf) ∷ reset_all m

  -- `reset`.
  unfoldable pub reset : ℕ → BackOffHandler → BackOffHandler
  unfolding reset_all
  reset now h = record h {
    back_off_exponent = 0;
    next_eligible_time = now;
    ceilings = reset_all h.ceilings;
  }

  -- `IsBackOffError`.
  abbrev pub is_back_off_error : GoError → Bool
  is_back_off_error e =
      k.is_resource_quota_exceeded e || k.is_too_many_requests e || k.is_server_timeout e

  abbrev pub back_off_error : GoError
  back_off_error = GoError.coded "BackOffError" ""

  -- What a refused operation leaves of the handler.
  unfoldable pub refused : ℕ → GoError → BackOffHandler → BackOffHandler
  unfolding back_off update_all
  refused now e h =
      let timed : BackOffHandler = if is_blocking now h then h else back_off now h in
      if k.is_resource_quota_exceeded e
      then record timed { ceilings = update_all (k.requested e) timed.ceilings }
      else timed

  -- The result of an operation that was tried.
  unfoldable pub tried : ℕ → BackOffHandler → Option GoError → BackOffHandler × Option GoError
  unfolding refused reset
  tried now h none = (reset now h, none)
  tried now h (some e) =
      if is_back_off_error e
      then (refused now e h, some (GoError.wrapped "BackOffError" "" e))
      else (h, some e)

  -- `Handle`, of an operation on a state.
  unfoldable pub handle {ℓ} :
      {S : Type ℓ}
      → ℕ
      → (S → S × Option GoError)
      → Assoc k.Quantity
      → BackOffHandler
      → S
      → (BackOffHandler × S) × Option GoError
  unfolding tried is_eligible
  handle now operation request h s =
      if h.back_off_base_second == 0
      then (let (s', r) = operation s in ((h, s'), r))
      else if not (is_blocking now h) || is_eligible request h.ceilings
      then (let (s', r) = operation s in let (h', r') = tried now h r in ((h', s'), r'))
      else ((h, s), some back_off_error)
