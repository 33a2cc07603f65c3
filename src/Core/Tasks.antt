-- ===== src/Core/Tasks.antt =====
-- crates/rskynet-core/src/task.rs: the tasks of a service. A future is a value of any type `F`. The
-- slots are a map by their index; the slab of the source picks the index of a new task, so `vacant`
-- is an argument. A signal is shared by the slot of a task and its wakers, which may outlive the
-- slot; each task has its own, so the signals are a function of the generation. A waker is its task.
-- Nothing rests on the order of the slots.
pub mod Slots
pub mod Wake
mod Examples
use rskynet.Base.{
  ℕ, ◌+◌, Bool, true, false, List, [], ◌∷◌, Option, none, some, ◌==◌, if◌then◌else◌, wrapping_add,
  length,
}
use rskynet.Base.Maps.{lookup, insert, erase}

pub record TaskId : Type 0 where
  pub index : ℕ
  pub generation : ℕ

-- A request is its sender and session.
pub record TaskSlot (F : Type 0) : Type 0 where
  pub future : Option F
  pub generation : ℕ
  pub request : Option (ℕ × ℕ)
  pub source : ℕ

pub record TaskSet (F : Type 0) : Type 0 where
  pub slots : List (ℕ × TaskSlot F)
  pub next_generation : ℕ
  pub count : ℕ
  pub signals : ℕ → Bool

module _ {F : Type 0} where
  abbrev pub set_signal : ℕ → Bool → TaskSet F → TaskSet F
  set_signal g b t = record t { signals = λ h. if h == g then b else t.signals h }

  unfoldable pub new : TaskSet F
  new = record { slots = []; next_generation = 0; count = 0; signals = λ g. false }

  unfoldable pub insert_task :
      (List (ℕ × TaskSlot F) → ℕ) → F → Option (ℕ × ℕ) → ℕ → TaskSet F → TaskId × TaskSet F
  insert_task vacant future request source t =
      let generation = wrapping_add t.next_generation 1 in
      let task : TaskId = record { index = vacant t.slots; generation = generation } in
      let slot : TaskSlot F = record {
        future = some future;
        generation = generation;
        request = request;
        source = source;
      } in
      let slots = insert task.index slot t.slots in
      (
        task,
        set_signal generation true
            (record t { slots = slots; next_generation = generation; count = length slots }),
      )

  -- The slot of a task, if it still is the task's.
  abbrev pub if_generation : ℕ → Option (TaskSlot F) → Option (TaskSlot F)
  if_generation g none = none
  if_generation g (some s) = if s.generation == g then some s else none

  unfoldable pub slot_of : TaskId → TaskSet F → Option (TaskSlot F)
  slot_of task t = if_generation task.generation (lookup task.index t.slots)

  -- The future and the source; the waker is the task's.
  unfoldable pub take : TaskId → TaskSet F → Option (F × ℕ) × TaskSet F
  unfolding slot_of
  take task t = elim (slot_of task t) [
    | none ↦ (none, t)
    | some s ↦ elim s.future [
      | none ↦ (none, t)
      | some f ↦ (
        some (f, s.source),
        set_signal task.generation false
            (record t { slots = insert task.index (record s { future = none }) t.slots }),
      )
    ]
  ]

  unfoldable pub restore : TaskId → F → TaskSet F → TaskSet F
  unfolding slot_of
  restore task future t = elim (slot_of task t) [
    | none ↦ t
    | some s ↦ record t { slots = insert task.index (record s { future = some future }) t.slots }
  ]

  unfoldable pub remove : TaskId → TaskSet F → TaskSet F
  unfolding slot_of
  remove task t = elim (slot_of task t) [
    | none ↦ t
    | some s ↦
        let slots = erase task.index t.slots in record t { slots = slots; count = length slots }
  ]

  unfoldable pub requests_of : List (ℕ × TaskSlot F) → List (ℕ × ℕ)
  requests_of [] = []
  requests_of ((i, s) ∷ m) = elim s.request [ none ↦ requests_of m | some r ↦ r ∷ requests_of m ]

  unfoldable pub without_requests : List (ℕ × TaskSlot F) → List (ℕ × TaskSlot F)
  without_requests [] = []
  without_requests ((i, s) ∷ m) = (i, record s { request = none }) ∷ without_requests m

  unfoldable pub take_requests : TaskSet F → List (ℕ × ℕ) × TaskSet F
  unfolding requests_of without_requests
  take_requests t = (requests_of t.slots, record t { slots = without_requests t.slots })

  unfoldable pub futures_of : List (ℕ × TaskSlot F) → List F
  futures_of [] = []
  futures_of ((i, s) ∷ m) = elim s.future [ none ↦ futures_of m | some f ↦ f ∷ futures_of m ]

  unfoldable pub drain_tasks : TaskSet F → List F × TaskSet F
  unfolding futures_of
  drain_tasks t = (futures_of t.slots, record t { slots = []; count = 0 })

  -- The exchange of `wake_by_ref`: whether this wake has to put the task into the ready queue.
  unfoldable pub signal : TaskId → TaskSet F → Bool × TaskSet F
  signal task t =
      if t.signals task.generation then (false, t) else (true, set_signal task.generation true t)
