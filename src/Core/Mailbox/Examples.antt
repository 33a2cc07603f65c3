-- ===== src/Core/Mailbox/Examples.antt =====
-- Runs of a mailbox, and the theorems on them.
use rskynet.Base.{
  ℕ, ◌+◌, ◌≤◌, ◌<◌, ◌≡◌, ◌≢◌, refl, ap, arith, ◌⊎◌, inl, inr, List, [], ◌∷◌, replicate, Occurs,
  some_ne_none, Option, some, none,
}
use rskynet.Core.Tasks.{TaskId}
use rskynet.Core.Mailbox.{
  Mailbox, running, notified, message, taken, new, put_message, check_overload, take_work,
  mark_running, notify, drain,
}
use rskynet.Core.Mailbox.Take.{Fits, take_work_lem}
use rskynet.Core.Mailbox.Fairness.{serve, messages_are_served}
use rskynet.Core.Mailbox.Schedule.{
  System, start, Reachable, begins, then_steps, pushes_message, notifies, claims, marks_running,
}
use rskynet.Core.Mailbox.Schedule.Sound.{holders}
use rskynet.Core.Mailbox.Schedule.Reached.{one_worker, no_lost_work}

-- A running service with two messages and a task.
abbrev woken : TaskId
woken = record { index = 0; generation = 5 }

abbrev busy : Mailbox ℕ
busy = record {
  queue = 7 ∷ 8 ∷ [];
  ready = woken ∷ [];
  len = 2;
  state = running;
  overload = 0;
  overload_threshold = 1024;
  ready_streak = 64;
}

overdue_message :
    take_work busy ≡ taken (message 7) (record busy { queue = 8 ∷ []; len = 1; ready_streak = 0 })
unfolding take_work
overdue_message = refl

drained : (drain busy).0 ≡ 7 ∷ 8 ∷ []
unfolding drain
drained = refl

abbrev flooded : Mailbox ℕ
flooded = record busy { len = 5000 }

threshold_doubles : (check_overload flooded).overload_threshold ≡ 8192
unfolding check_overload
threshold_doubles = refl

take_work_lem_example : Fits busy (take_work busy)
take_work_lem_example = take_work_lem busy (inl refl)

-- A task that wakes itself before every turn.
messages_are_served_example :
    Occurs (message 7) (serve (replicate 65 (woken ∷ [])) (record busy { ready_streak = 0 }))
messages_are_served_example =
    messages_are_served (replicate 65 (woken ∷ [])) (record busy { ready_streak = 0 }) 7 (8 ∷ [])
      refl (omega arith)

-- A new service gets a message from a producer, and a worker takes it and runs it.
abbrev pushed_to : System ℕ
pushed_to = record start { box = put_message 7 new; pushed = 1 }

abbrev told : System ℕ
told = record pushed_to { pushed = 0; box = (notify pushed_to.box).1; listed = 1 }

abbrev taken_up : System ℕ
taken_up = record told { listed = 0; claimed = 1 }

abbrev run_by : System ℕ
run_by = record taken_up { box = mark_running taken_up.box; claimed = 0; working = 1 }

run_by-Reachable : Reachable run_by
unfolding new put_message notify
run_by-Reachable =
    then_steps taken_up run_by
      (then_steps told taken_up
        (then_steps pushed_to told (then_steps start pushed_to begins (pushes_message start 7))
          (notifies pushed_to 0 refl))
        (claims told 0 refl))
      (marks_running taken_up 0 refl)

waits : (run_by.box.ready ≢ []) ⊎ (run_by.box.queue ≢ [])
unfolding mark_running notify put_message new
waits = inr (λ e. some_ne_none (ap head e))
  where
    head : List ℕ → Option ℕ
    head [] = none
    head (x ∷ xs) = some x

one_worker_example :
    (run_by.claimed + holders run_by ≤ 1)
    × (0 < holders run_by → run_by.listed + run_by.claimed ≡ 0)
one_worker_example = one_worker run_by run_by-Reachable

no_lost_work_example :
    (run_by.listed + run_by.claimed + holders run_by ≡ 1)
    × (0 < run_by.no_work → run_by.box.state ≡ notified)
no_lost_work_example = no_lost_work run_by run_by-Reachable refl waits
