-- ===== src/Tests/HostTests.antt =====
-- Callers that share the places of hosts.
use clusterctl.Prelude.{◌≤◌, List, [], ◌∷◌, Bytes, codes, pos, ◌≡◌, refl, inl, arith}
use clusterctl.Config.Value.{lt_bytes}
use clusterctl.Fanout.Hosts.{
  slot_limit, insert_name, sort_names, compact, compact_after, skip_empty, acquire_names, Slots,
  take_place, Caller, waiting, takes, comes, turns, Reach, free, next,
}
use clusterctl.Fanout.Hosts.Bound.{held_on, Reach-Counted}
use clusterctl.Fanout.Hosts.Progress.{Moves, Reach-Moves}

abbrev asked : List Bytes
asked = codes "sw2" ∷ codes "sw1" ∷ [] ∷ codes "sw2" ∷ []

names_in_order : acquire_names asked ≡ codes "sw1" ∷ codes "sw2" ∷ []
unfolding acquire_names skip_empty compact sort_names insert_name lt_bytes compact_after
names_in_order = refl

-- one caller has a place on the first host, and another comes
abbrev first_taken : Slots
first_taken = take_place (codes "sw1") (λ k. 0)

abbrev second : Caller
second = waiting (codes "sw1" ∷ codes "sw2" ∷ []) []

abbrev two_callers : List Caller
two_callers = second ∷ waiting (codes "sw2" ∷ []) (codes "sw1" ∷ []) ∷ []

two_callers-Reach : Reach (slot_limit (pos 1)) first_taken two_callers
unfolding acquire_names slot_limit skip_empty compact sort_names insert_name lt_bytes compact_after
two_callers-Reach =
    next
      (next (next free (comes asked (λ k. 0) [])) (
        turns [] [] second (waiting (codes "sw2" ∷ []) (codes "sw1" ∷ [])) (λ k. 0) first_taken
          (takes (codes "sw1") (codes "sw2" ∷ []) [] (λ k. 0) (omega arith))))
      (comes asked first_taken (waiting (codes "sw2" ∷ []) (codes "sw1" ∷ []) ∷ []))

Reach-Counted_example :
    (first_taken (codes "sw1") ≡ held_on (codes "sw1") two_callers)
    × (first_taken (codes "sw1") ≤ slot_limit (pos 1))
Reach-Counted_example = Reach-Counted two_callers-Reach (codes "sw1")

Reach-Moves_example : Moves (slot_limit (pos 1)) first_taken two_callers
Reach-Moves_example = Reach-Moves (pos 1) two_callers-Reach (inl tt)
