-- ===== src/Core/Node/Examples.antt =====
-- Tests of the life of a node, and the theorems on a run.
use rskynet.Base.{ℕ, ◌≡◌, refl, Bool, true, false, [], ◌∷◌, none, length}
use rskynet.Core.Node.{
  alive, destroying, gone, Node, NodeService, new, launch, mark_booted, set_quit_locked,
  swap_destroyed, settle_total, launches, boots, marks, settles, Reachable, begins, then_steps,
}
use rskynet.Core.Node.Quits.{ordinary, last_service_stops, stopped_stays}

-- One ordinary service.
abbrev with_stage : ℕ → Bool → Bool → NodeService → Node
with_stage total booted quit s = record {
  total = total;
  booted = booted;
  quit = quit;
  services = s ∷ [];
}

abbrev launched : Node
launched = with_stage 1 false false (record { reserved = false; stage = alive })

abbrev booted_node : Node
booted_node = with_stage 1 true false (record { reserved = false; stage = alive })

abbrev marked : Node
marked = with_stage 1 true false (record { reserved = false; stage = destroying })

abbrev stopped : Node
stopped = with_stage 0 true true (record { reserved = false; stage = gone })

stopped-Reachable : Reachable stopped
unfolding new launch mark_booted set_quit_locked swap_destroyed settle_total
stopped-Reachable =
    then_steps marked stopped
      (then_steps booted_node marked
        (then_steps launched booted_node
          (then_steps new launched begins (launches new launched false refl)) (boots launched))
        (marks booted_node 0 (record { reserved = false; stage = alive }) refl))
      (settles marked 0 (record { reserved = false; stage = destroying }) refl refl)

second_destroy_returns :
    (swap_destroyed 0 (record { reserved = false; stage = destroying }) marked).0 ≡ true
unfolding swap_destroyed
second_destroy_returns = refl

stopped_refuses : launch false stopped ≡ none
unfolding launch
stopped_refuses = refl

last_service_stops_example :
    (0 ≡ ordinary stopped.services) × (true ≡ true → ordinary stopped.services ≡ 0 → true ≡ true)
last_service_stops_example = last_service_stops stopped stopped-Reachable

stopped_stays_example :
    ((mark_booted stopped).1.quit ≡ true) × (length (mark_booted stopped).1.services ≡ 1)
stopped_stays_example = stopped_stays stopped (mark_booted stopped).1 (boots stopped) refl
