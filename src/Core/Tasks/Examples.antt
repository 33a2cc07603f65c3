-- ===== src/Core/Tasks/Examples.antt =====
-- Tests of the tasks, and the theorems on concrete runs.
use rskynet.Base.{
  ℕ, ◌≤◌, ◌≡◌, refl, arith, true, false, if◌then◌else◌, ◌==◌, List, [], ◌∷◌, none, some, length,
}
use rskynet.Core.Tasks.{
  TaskId, TaskSlot, TaskSet, new, insert_task, take, take_requests, signal, requests_of,
}
use rskynet.Core.Tasks.Wake.{Waking, start, spawns, pushes, Reachable, begins, then_steps}
use rskynet.Core.Tasks.Wake.Sound.{entries_of, IsLive}
use rskynet.Core.Tasks.Wake.Reached.{one_entry, woken_is_polled}

-- A slab without removals.
abbrev next_slot : List (ℕ × TaskSlot ℕ) → ℕ
next_slot m = length m

abbrev first_task : TaskId
first_task = record { index = 0; generation = 1 }

-- One task with the future 7 and the request (5, 9).
unfoldable one_task : TaskSet ℕ
unfolding new insert_task
one_task = (insert_task next_slot 7 (some (5, 9)) 5 new).1

take_gives_the_future : (take first_task one_task).0 ≡ some (7, 5)
unfolding one_task new insert_task take
take_gives_the_future = refl

second_take_gives_none : (take first_task (take first_task one_task).1).0 ≡ none
unfolding one_task new insert_task take
second_take_gives_none = refl

wake_after_take_pushes : (signal first_task (take first_task one_task).1).0 ≡ true
unfolding one_task new insert_task take signal
wake_after_take_pushes = refl

wake_before_take_does_not : (signal first_task one_task).0 ≡ false
unfolding one_task new insert_task signal
wake_before_take_does_not = refl

requests_are_taken_once : (take_requests (take_requests one_task).1).0 ≡ []
unfolding one_task new insert_task take_requests requests_of
requests_are_taken_once = refl

-- A task was spawned and its entry has reached the ready queue.
abbrev spawned_one : Waking ℕ
spawned_one =
    let (task, tasks) = insert_task next_slot 7 none 0 start.tasks in
    record start {
      tasks = tasks;
      pushing = task ∷ [];
      spawned = 1;
      issued = λ g. if g == task.generation then task.index else 0;
    }

abbrev pushed_one : Waking ℕ
pushed_one = record spawned_one { pushing = []; ready = spawned_one.pushing }

pushed_one-Reachable : Reachable next_slot pushed_one
unfolding new insert_task
pushed_one-Reachable =
    then_steps spawned_one pushed_one (then_steps start spawned_one begins (spawns start 7 none 0))
      (pushes spawned_one first_task [] [] refl)

first_task-IsLive : IsLive pushed_one 1
unfolding new insert_task
first_task-IsLive = (0, _, refl, refl)

one_entry_example :
    (entries_of pushed_one 1 ≤ 1)
    × (IsLive pushed_one 1 → pushed_one.tasks.signals 1 ≡ true → entries_of pushed_one 1 ≡ 1)
one_entry_example = one_entry next_slot pushed_one 1 pushed_one-Reachable (omega arith)

woken_is_polled_example :
    (f : ℕ) × (source : ℕ) × ((take first_task pushed_one.tasks).0 ≡ some (f, source))
unfolding new insert_task
woken_is_polled_example =
    woken_is_polled next_slot pushed_one first_task [] pushed_one-Reachable (omega arith) refl refl
      first_task-IsLive
