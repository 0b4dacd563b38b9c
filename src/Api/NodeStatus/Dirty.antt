-- ===== src/Api/NodeStatus/Dirty.antt =====
-- `IsDirty`, against the statuses that lie below a node at any depth.
use flytepropeller.Prelude.{
  String, true, false, ◌≡◌, ◌↔◌, ◌≢◌, sym, ◌∙◌, refl, arith, inl, inr, Bool-cases,
}
use flytepropeller.Api.NodeStatus.{
  NodeStatus, StatusOver, SubNodes, no_nodes, entry, own_dirty, sub_dirty, is_dirty,
}

-- `s` is the status of some node below.
pub data Below (s : StatusOver Unit) : SubNodes → Type 0 where
  here : {id : String} {below rest : SubNodes} → Below s (entry id s below rest)
  deeper :
      {id : String} {t : StatusOver Unit} {below rest : SubNodes}
      → Below s below
      → Below s (entry id t below rest)
  later :
      {id : String} {t : StatusOver Unit} {below rest : SubNodes}
      → Below s rest
      → Below s (entry id t below rest)

sub_dirty-false :
    (s : StatusOver Unit) (ns : SubNodes) → sub_dirty ns ≡ false → Below s ns → own_dirty s ≡ false
unfolding sub_dirty
sub_dirty-false s ns h here = ground arith
sub_dirty-false s ns h (deeper {below} b) = sub_dirty-false s below (ground arith) b
sub_dirty-false s ns h (later {rest} b) = sub_dirty-false s rest (ground arith) b

false-sub_dirty :
    (ns : SubNodes)
    → ((s : StatusOver Unit) → Below s ns → own_dirty s ≡ false)
    → sub_dirty ns ≡ false
unfolding sub_dirty
false-sub_dirty no_nodes h = refl
false-sub_dirty (entry id s below rest) h =
    let own = h s here in
    let under = false-sub_dirty below (λ t b. h t (deeper b)) in
    let after = false-sub_dirty rest (λ t b. h t (later b)) in rw (own, under, after)

-- A status is clean exactly when its own flags are down and those of every status below it are.
pub is_dirty-false :
    (t : NodeStatus)
    → (is_dirty t ≡ false) ↔ (
        (own_dirty t ≡ false)
        × ((s : StatusOver Unit) → Below s t.sub_node_status → own_dirty s ≡ false))
unfolding is_dirty
is_dirty-false t = (
  λ h. (ground arith, λ s b. sub_dirty-false s t.sub_node_status (ground arith) b),
  λ (own, all). rw (own, false-sub_dirty t.sub_node_status all),
)

true≢false : true ≢ false
true≢false h = cc

-- A status with a changed status anywhere below it is dirty.
pub Below-is_dirty :
    (s : StatusOver Unit) (t : NodeStatus)
    → Below s t.sub_node_status
    → own_dirty s ≡ true
    → is_dirty t ≡ true
unfolding is_dirty
Below-is_dirty s t b h = elim (Bool-cases (is_dirty t)) [
  | inl e ↦ e
  | inr e ↦ absurd (true≢false (sym h ∙ ((is_dirty-false t).0 e).1 s b))
]
