-- ===== src/Propeller/Streaks.antt =====
-- How often a call of `Handle` writes.
use flytepropeller.Prelude.{
  ℕ, zero, suc, ◌+◌, ◌≤◌, String, Bool, true, false, ◌&&◌, Option, none, some, if◌then◌else◌,
  if-both, arith,
}
use flytepropeller.Api.Error.{GoError, Result, ok, err}
use flytepropeller.Propeller.Resource.{FlyteWorkflow, is_terminated, is_released}
use flytepropeller.Propeller.Store.{caused_by}
use flytepropeller.Propeller.Handler.{
  Propeller, Outside, Outcome, Action, Next, streak_length, write_failing, after_update, act, turn,
  streak, handle_found, handle, try_mutate_workflow,
}

module _ {S : Type 0} (p : Propeller S) where
  -- A measure of the store that an update raises by at most one.
  abbrev pub CountsUpdates : (S → ℕ) → Type 0
  CountsUpdates count = (f : FlyteWorkflow) (s : S) → count ((p.store.update f s).0) ≤ count s + 1

  -- One more update than the turns: the last turn may write twice.
  abbrev Within : (S → ℕ) → ℕ → Outside S × Next → Type 0
  Within count n (o, Next.stop x) = count o.store ≤ n + 2
  Within count n (o, Next.again w) = count o.store ≤ n + 1

  module _ (count : S → ℕ) (counts : CountsUpdates count) where
    write_failing-Within :
        (f : FlyteWorkflow) (o : Outside S) (n : ℕ)
        → count o.store ≤ n + 1
        → Within count n (write_failing p f o)
    unfolding write_failing
    write_failing-Within f o n h = omega (arith, counts f o.store)

    Within-next :
        (b : Bool) (o : Outside S) (y : Outcome) (w : FlyteWorkflow) (n : ℕ)
        → count o.store ≤ n + 1
        → Within count n (o, if b then Next.stop y else Next.again w)
    Within-next true o y w n h = omega arith
    Within-next false o y w n h = h

    after_update-Within :
        (w m : FlyteWorkflow) (e : Option GoError) (r : Result (Option FlyteWorkflow))
        (o : Outside S) (n : ℕ)
        → count o.store ≤ n + 1
        → Within count n (after_update p w m e r o)
    unfolding after_update
    after_update-Within w m e (err x) o n h =
        if-both (Within count n) (caused_by 103 x) {y = (o, Next.stop (Outcome.returned (some x)))}
          (write_failing-Within _ o n h) (omega arith)
    after_update-Within w m (some e) (ok _) o n h = omega arith
    after_update-Within w m none (ok none) o n h = omega arith
    after_update-Within w m none (ok (some new)) o n h =
        Within-next _ o (Outcome.returned none) new n h

    act-Within :
        (w : FlyteWorkflow) (a : Action) (o : Outside S)
        → Within count (count o.store) (act p w a o)
    unfolding act
    act-Within w Action.skip o = omega arith
    act-Within w (Action.fail f) o = write_failing-Within f o (count o.store) (omega arith)
    act-Within w (Action.write m e) o =
        after_update-Within w m e (p.store.update m o.store).1
          (record o { store = (p.store.update m o.store).0 }) (count o.store) (counts m o.store)

    turn-Within : (w : FlyteWorkflow) (o : Outside S) → Within count (count o.store) (turn p w o)
    unfolding turn
    turn-Within w o = act-Within w _ (record o { world = (try_mutate_workflow p w o.world).0 })

    streak-updates :
        (n : ℕ) (w : FlyteWorkflow) (o : Outside S)
        → count ((streak p n w o).0.store) ≤ count o.store + n + 1
    unfolding streak
    streak-updates zero w o = omega arith
    streak-updates (suc n) w o = go (turn p w o) (turn-Within w o) (streak-updates n)
      where
        go :
            (x : Outside S × Next)
            → Within count (count o.store) x
            → ((v : FlyteWorkflow) (u : Outside S)
                → count ((streak p n v u).0.store) ≤ count u.store + n + 1)
            → count (
                (elim x.1 as (λ _. Outside S × Outcome) [
                  | Next.stop y ↦ (x.0, y)
                  | Next.again new ↦ streak p n new x.0
                ]).0.store)
              ≤ count o.store + suc n + 1
        go (u, Next.stop y) h k = omega (arith)
        go (u, Next.again v) h k = omega (arith, k v u)

    found-updates :
        (r : Result FlyteWorkflow) (o : Outside S)
        → count ((handle_found p r o).0.store)
          ≤ count o.store + streak_length p.max_streak_length + 1
    unfolding handle_found
    found-updates (err e) o =
        if-both Few (caused_by 102 e) {x = (o, Outcome.returned none)} (omega arith) (
          if-both Few (caused_by 101 e) {x = (o, Outcome.returned none)}
            {y = (o, Outcome.returned (some e))} (omega arith) (omega arith))
      where
        Few : Outside S × Outcome → Type 0
        Few x = count x.0.store ≤ count o.store + streak_length p.max_streak_length + 1
    found-updates (ok w) o =
        if-both Few (is_terminated w && is_released w) {x = (o, Outcome.returned none)}
          (omega arith) (streak-updates (streak_length p.max_streak_length) w o)
      where
        Few : Outside S × Outcome → Type 0
        Few x = count x.0.store ≤ count o.store + streak_length p.max_streak_length + 1

    -- Where an update raises a measure of the store by at most one, a call of `Handle` raises it by
    -- at most one more than the longest streak: each turn writes once, and the last one may write a
    -- second time.
    pub handle-updates :
        (namespace name : String) (o : Outside S)
        → count ((handle p namespace name o).0.store)
          ≤ count o.store + streak_length p.max_streak_length + 1
    unfolding handle
    handle-updates namespace name o = found-updates (p.store.get namespace name o.store) o
