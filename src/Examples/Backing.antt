-- ===== src/Examples/Backing.antt =====
-- A cluster whose quota four processors exceed.
use flytepropeller.Prelude.{
  ℕ, ◌^◌, ◌≡◌, refl, true, false, Option, some, [], ◌∷◌, lookup, leb, arith,
}
use flytepropeller.Prelude.Int.{pos}
use flytepropeller.Api.Error.{GoError}
use flytepropeller.Tasks.Backoff.{
  Kube, BackOffHandler, back_off, refused, tried, handle, back_off_error,
}
use flytepropeller.Tasks.Backoff.Ceilings.{IsWhole, handle-back_off_error}

abbrev kube : Kube
kube = record {
  Quantity = ℕ;
  value = λ q. q;
  at_least = λ a b. leb b a;
  inf = 1000000;
  nanoseconds = λ b e. pos (b ^ e);
  is_resource_quota_exceeded = λ _. true;
  is_too_many_requests = λ _. false;
  is_server_timeout = λ _. false;
  requested = λ _. ("cpu", 4) ∷ [];
}

abbrev fresh : BackOffHandler kube
fresh = record {
  back_off_base_second = 2;
  max_back_off_duration = 100;
  back_off_exponent = 0;
  next_eligible_time = 0;
  ceilings = [];
}

-- The state counts the calls.
abbrev create : ℕ → ℕ × Option GoError
create n = (n, some (GoError.foreign 1))

four-IsWhole : IsWhole kube 4
four-IsWhole c h = ground arith

handle-back_off_error_example :
    handle kube 6 create (("cpu", 4) ∷ []) (handle kube 5 create (("cpu", 4) ∷ []) fresh 0).0.0 1
    ≡ (((handle kube 5 create (("cpu", 4) ∷ []) fresh 0).0.0, 1), some (back_off_error kube))
unfolding handle tried refused back_off lookup
handle-back_off_error_example =
    handle-back_off_error kube 5 create (("cpu", 4) ∷ []) fresh 0 0 (GoError.foreign 1) "cpu" 4 refl
      refl refl refl refl four-IsWhole 6 create (("cpu", 4) ∷ []) 1 (omega arith) refl
