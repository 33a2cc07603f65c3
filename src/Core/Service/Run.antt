-- ===== src/Core/Service/Run.antt =====
-- crates/rskynet-core/src/server.rs: the work of a service and the rounds in which it is done.
use rskynet.Base.{
  ℕ, zero, suc, ◌+◌, ◌*◌, Bool, not, ◌&&◌, List, [], ◌∷◌, ◌++◌, Option, none, some, ◌==◌, leb, ltb,
  if◌then◌else◌, wrapping_add, saturating_add, min, u64_max,
}
use rskynet.Core.Error.{call_failed, Result, ok, err}
use rskynet.Core.Message.{Message, error_type, is_reply}
use rskynet.Core.Session.{complete}
use rskynet.Core.Tasks.{TaskId, TaskSlot, insert_task, take, restore, remove}
use rskynet.Core.Mailbox.{
  Work, message, ready_task, Taken, taken, nothing, panicked, out_of_fuel, take_work, take_overload,
}
use rskynet.Core.Service.{
  Service, Event, wakes, panics, logs_overload, Polled, finished, not_yet, is_running, take_pending,
  wake_task,
}

abbrev pub yield_interval : ℕ
yield_interval = 64

-- The code that a service is made of: to dispatch a message gives a future, to poll a future may
-- finish it. `vacant` is the slab's choice of an index.
pub record UserCode (F P W : Type 0) : Type 0 where
  pub dispatch : Message P → Service F P W → List (Event F W) × F × Service F P W
  pub poll : F → Service F P W → List (Event F W) × Polled F × Service F P W
  pub vacant : List (ℕ × TaskSlot F) → ℕ

-- The outcomes of `run_service`, and what the model adds: the panic of a thread that does not hold the
-- mailbox, and no end of the fuel given.
pub data Ran : Type 0 where
  ran_idle : Ran
  ran_yielded : Ran
  ran_dead : Ran
  ran_panicked : Ran
  ran_on : Ran

-- `usize::saturating_mul`
abbrev pub saturating_mul : ℕ → ℕ → ℕ
saturating_mul a b = min (a * b) u64_max

-- What one round of `run_service` leads to: it ends, or goes on with the amount of work that counts as
-- done since the last look at the scheduler.
pub data Next : Type 0 where
  ends : Ran → Next
  goes_on : ℕ → Next

-- Events before those of a later step.
module _ {F P W : Type 0} where
  abbrev pub with_events :
      List (Event F W) → List (Event F W) × Service F P W → List (Event F W) × Service F P W
  with_events es (fs, s) = (es ++ fs, s)

  abbrev pub then_ran :
      List (Event F W)
      → List (Event F W) × Ran × Service F P W
      → List (Event F W) × Ran × Service F P W
  then_ran es (fs, r, s) = (es ++ fs, r, s)

  -- The end of a round after a pending message, and after work of the mailbox.
  abbrev pub after_pending : (Service F P W → Bool) → Bool → ℕ → Service F P W → Next
  after_pending should_yield preemptible done s =
      if s.dead
      then ends ran_dead
      else if preemptible && leb yield_interval done && should_yield s
      then ends ran_yielded
      else goes_on done

  abbrev pub after_work : (Service F P W → Bool) → Bool → ℕ → Service F P W → Next
  after_work should_yield preemptible done s =
      if s.dead
      then ends ran_dead
      else if preemptible && leb yield_interval done
      then (if should_yield s then ends ran_yielded else goes_on 0)
      else goes_on done

module _ {F P W : Type 0} (code : UserCode F P W) where
  unfoldable pub install_task :
      F → Option (ℕ × ℕ) → ℕ → Service F P W → List (Event F W) × Service F P W
  install_task future request source s =
      let (task, tasks) = insert_task code.vacant future request source s.tasks in
      wake_task task (record s { tasks = tasks })

  -- The reply to a call: the waiting caller gets the payload, or the error of a failed call.
  abbrev pub reply_result : Message P → Result P
  reply_result m = if m.mtype == error_type then err (call_failed m.source) else ok m.payload

  abbrev pub woken : Option W → List (Event F W)
  woken none = []
  woken (some w) = wakes w ∷ []

  -- The request that the task of a message works on.
  abbrev pub request_of : Message P → Option (ℕ × ℕ)
  request_of m =
      if not (m.session == 0) && not (m.source == 0) then some (m.source, m.session) else none

  unfoldable pub handle_message : Message P → Service F P W → List (Event F W) × Service F P W
  unfolding install_task
  handle_message m s =
      let counted = record s { message_count = wrapping_add s.message_count 1 } in
      let (found, waker, sessions) = complete m.session (reply_result m) s.sessions in
      let (es, future, t) = code.dispatch m counted in
      if is_reply m.mtype && not (m.session == 0)
      then (woken waker, record counted { sessions = sessions })
      else if not (is_running s.lifecycle)
      then elim s.pending_messages [
        | none ↦ (panics ∷ [], s)
        | some ms ↦ ([], record s { pending_messages = some (ms ++ m ∷ []) })
      ]
      else with_events es (install_task future (request_of m) m.source t)

  -- The task that was polled leaves its slot, or its future goes back.
  abbrev pub after_poll :
      TaskId → List (Event F W) × Polled F × Service F P W → List (Event F W) × Service F P W
  after_poll task (es, finished, s) = (es, record s { tasks = remove task s.tasks })
  after_poll task (es, not_yet f, s) = (es, record s { tasks = restore task f s.tasks })

  unfoldable pub poll_task : TaskId → Service F P W → List (Event F W) × Service F P W
  poll_task task s =
      let (got, tasks) = take task s.tasks in
      elim got [
        | none ↦ ([], record s { tasks = tasks })
        | some f ↦ after_poll task (code.poll f.0 (record s { tasks = tasks }))
      ]

  unfoldable pub run_work : Work (Message P) → Service F P W → List (Event F W) × Service F P W
  unfolding handle_message poll_task
  run_work (message m) s = handle_message m s
  run_work (ready_task task) s = poll_task task s

  -- The message is run after the length of a long queue is reported.
  abbrev pub run_taken : Work (Message P) → Service F P W → List (Event F W) × Service F P W
  run_taken (ready_task task) s = run_work (ready_task task) s
  run_taken (message m) s =
      let (overload, mailbox) = take_overload s.mailbox in
      with_events (if ltb 0 overload then logs_overload overload ∷ [] else [])
        (run_work (message m) (record s { mailbox = mailbox }))

  -- The message of the pending queue whose turn it is.
  abbrev pub next_pending : Service F P W → Option (Message P) × Service F P W
  next_pending s = if is_running s.lifecycle then take_pending s else (none, s)

  -- A round of `run_service`: with what the mailbox gives, or after a pending message.
  abbrev pub mailbox_round :
      (Service F P W → Bool)
      → Bool
      → ℕ
      → Service F P W
      → Taken (Message P)
      → List (Event F W) × Next × Service F P W
  mailbox_round should_yield preemptible done s (nothing b) =
      ([], ends ran_idle, record s { mailbox = b })
  mailbox_round should_yield preemptible done s panicked = ([], ends ran_panicked, s)
  mailbox_round should_yield preemptible done s out_of_fuel = ([], ends ran_panicked, s)
  mailbox_round should_yield preemptible done s (taken work b) =
      let (es, u) = run_taken work (record s { mailbox = b }) in
      (es, after_work should_yield preemptible (done + 1) u, u)

  abbrev pub run_round :
      (Service F P W → Bool)
      → Bool
      → ℕ
      → Option (Message P) × Service F P W
      → List (Event F W) × Next × Service F P W
  run_round should_yield preemptible done (some m, s) =
      let (es, u) = run_work (message m) s in
      (es, after_pending should_yield preemptible (done + 1) u, u)
  run_round should_yield preemptible done (none, s) =
      mailbox_round should_yield preemptible done s (take_work s.mailbox)

  -- The loop goes on, unless the round ends it.
  abbrev pub unless_ended :
      List (Event F W) × Next × Service F P W
      → (ℕ → Service F P W → List (Event F W) × Ran × Service F P W)
      → List (Event F W) × Ran × Service F P W
  unless_ended (es, ends r, s) loop = (es, r, s)
  unless_ended (es, goes_on n, s) loop = then_ran es (loop n s)

  -- The loop of `run_service` with the work done so far; `should_yield` is the scheduler's answer.
  unfoldable pub run_loop :
      ℕ → (Service F P W → Bool) → Bool → ℕ → Service F P W → List (Event F W) × Ran × Service F P W
  unfolding run_work
  run_loop zero should_yield preemptible done s = ([], ran_on, s)
  run_loop (suc fuel) should_yield preemptible done s =
      unless_ended (run_round should_yield preemptible done (next_pending s))
        (λ n t. run_loop fuel should_yield preemptible n t)

  unfoldable pub run_service :
      ℕ → (Service F P W → Bool) → Bool → Service F P W → List (Event F W) × Ran × Service F P W
  unfolding run_loop
  run_service fuel should_yield preemptible s =
      if s.dead then ([], ran_dead, s) else run_loop fuel should_yield preemptible 0 s

  -- The rounds that are left of the budget.
  unfoldable pub drain_rounds : ℕ → Service F P W → List (Event F W) × Service F P W
  unfolding run_work
  drain_rounds zero s = ([], s)
  drain_rounds (suc budget) s =
      if not (is_running s.lifecycle) then ([], s) else elim (take_work s.mailbox) [
        | nothing b ↦ ([], record s { mailbox = b })
        | panicked ↦ (panics ∷ [], s)
        | out_of_fuel ↦ (panics ∷ [], s)
        | taken work b ↦
            let (es, t) = run_work work (record s { mailbox = b }) in
            with_events es (drain_rounds budget t)
      ]

  unfoldable pub drain_service : Service F P W → List (Event F W) × Service F P W
  unfolding drain_rounds
  drain_service s =
      drain_rounds
        (saturating_add
          (saturating_add (saturating_mul s.mailbox.len 2) (saturating_mul s.tasks.count 2)) 16)
        s
