-- ===== src/Compiler/Cycles.antt =====
-- pkg/compiler/utils.go, `detectCycle`: the depth-first search for a cycle. It recurses on fuel; the
-- set of nodes that are being visited is the path to the node.
pub mod Search
pub mod Fuel
pub mod Rank
use flytepropeller.Prelude.{
  ℕ, zero, suc, String, Bool, true, false, ◌||◌, List, [], ◌∷◌, ◌++◌, str_eq, if◌then◌else◌,
}

-- Whether a text is in a list.
abbrev pub has : String → List String → Bool
has x [] = false
has x (y ∷ ys) = str_eq y x || has x ys

-- No cycle, with the nodes visited; the way to the node that closes a cycle; or no fuel left.
pub data Detection : Type 0 where
  clear : List String → Detection
  found : List String → Detection
  out_of_fuel : Detection

-- The visit of a neighbor and what the rest of the loop makes of it.
unfoldable pub after_visit : String → Detection → Detection → Detection
after_visit next (found path) rest = found (next ∷ path)
after_visit next out_of_fuel rest = out_of_fuel
after_visit next (clear vs) (clear us) = clear (vs ++ us)
after_visit next (clear vs) (found path) = found path
after_visit next (clear vs) out_of_fuel = out_of_fuel

-- The loop over the neighbors.
unfoldable pub first_found : (String → Detection) → List String → Detection
unfolding after_visit
first_found visit [] = clear []
first_found visit (n ∷ ns) = after_visit n (visit n) (first_found visit ns)

abbrev pub visited : String → Detection → Detection
visited id (clear vs) = clear (id ∷ vs)
visited id (found path) = found path
visited id out_of_fuel = out_of_fuel

module _ (neighbors : String → List String) where
  -- The inner `detector`.
  unfoldable pub detector : ℕ → List String → String → Detection
  unfolding first_found
  detector zero visiting id = out_of_fuel
  detector (suc fuel) visiting id =
      if has id visiting
      then found []
      else visited id (first_found (λ n. detector fuel (id ∷ visiting) n) (neighbors id))

  abbrev pub from_start : String → Detection → Detection
  from_start start (found path) = found (start ∷ path)
  from_start start d = d

  -- `detectCycle`.
  unfoldable pub detect_cycle : ℕ → String → Detection
  unfolding detector
  detect_cycle fuel start = from_start start (detector fuel [] start)
