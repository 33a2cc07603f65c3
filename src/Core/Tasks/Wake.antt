-- ===== src/Core/Tasks/Wake.antt =====
-- The wakes of a service's tasks, interleaved with the worker that polls them.
pub mod Sound
pub mod Polls
pub mod Reached
use rskynet.Base.{
  ℕ, zero, suc, ◌+◌, ◌≤◌, ◌<◌, ◌≡◌, Bool, true, false, List, [], ◌∷◌, ◌++◌, Option, none, some,
  ◌==◌, if◌then◌else◌,
}
use rskynet.Base.Maps.{lookup}
use rskynet.Core.Tasks.{
  TaskId, TaskSlot, TaskSet, new, insert_task, take, restore, remove, drain_tasks, signal,
}

-- The ready queue of the mailbox, the wakers that have set a signal and are about to push their task,
-- the task that is being polled, and what was handed out: the index for each generation, and how
-- many tasks there were.
pub record Waking (F : Type 0) : Type 0 where
  pub tasks : TaskSet F
  pub ready : List TaskId
  pub pushing : List TaskId
  pub polling : Option TaskId
  pub issued : ℕ → ℕ
  pub spawned : ℕ

module _ {F : Type 0} where
  abbrev pub start : Waking F
  start = record {
    tasks = new;
    ready = [];
    pushing = [];
    polling = none;
    issued = λ g. 0;
    spawned = 0;
  }

  -- The waker of the task with a generation.
  abbrev pub waker : Waking F → ℕ → TaskId
  waker s g = record { index = s.issued g; generation = g }

-- A step of the worker or of a thread that holds a waker; `vacant` picks the slots.
pub data Step {F : Type 0} (vacant : List (ℕ × TaskSlot F) → ℕ) : Waking F → Waking F → Type 0 where
  spawns :
      (s : Waking F) (f : F) (request : Option (ℕ × ℕ)) (source : ℕ)
      → Step vacant s (
          let (task, tasks) = insert_task vacant f request source s.tasks in
          record s {
            tasks = tasks;
            pushing = task ∷ s.pushing;
            spawned = suc s.spawned;
            issued = λ g. if g == task.generation then task.index else s.issued g;
          })
  wakes :
      (s : Waking F) (g : ℕ)
      → 0 < g
      → g ≤ s.spawned
      → Step vacant s (
          let (fires, tasks) = signal (waker s g) s.tasks in
          record s { tasks = tasks; pushing = if fires then waker s g ∷ s.pushing else s.pushing })
  pushes :
      (s : Waking F) (task : TaskId) (before after : List TaskId)
      → s.pushing ≡ before ++ task ∷ after
      → Step vacant s (record s { pushing = before ++ after; ready = s.ready ++ task ∷ [] })
  skips :
      (s : Waking F) (task : TaskId) (rest : List TaskId) (tasks : TaskSet F)
      → s.polling ≡ none
      → s.ready ≡ task ∷ rest
      → take task s.tasks ≡ (none, tasks)
      → Step vacant s (record s { tasks = tasks; ready = rest })
  polls :
      (s : Waking F) (task : TaskId) (rest : List TaskId) (f : F) (source : ℕ) (tasks : TaskSet F)
      → s.polling ≡ none
      → s.ready ≡ task ∷ rest
      → take task s.tasks ≡ (some (f, source), tasks)
      → Step vacant s (record s { tasks = tasks; ready = rest; polling = some task })
  finishes :
      (s : Waking F) (task : TaskId)
      → s.polling ≡ some task
      → Step vacant s (record s { tasks = remove task s.tasks; polling = none })
  pends :
      (s : Waking F) (task : TaskId) (f : F)
      → s.polling ≡ some task
      → Step vacant s (record s { tasks = restore task f s.tasks; polling = none })
  drains :
      (s : Waking F)
      → s.polling ≡ none
      → Step vacant s (record s { tasks = (drain_tasks s.tasks).1 })

pub data Reachable {F : Type 0} (vacant : List (ℕ × TaskSlot F) → ℕ) : Waking F → Type 0 where
  begins : Reachable vacant start
  then_steps : (s t : Waking F) → Reachable vacant s → Step vacant s t → Reachable vacant t
