-- ===== src/Core/Mailbox.antt =====
-- crates/rskynet-core/src/mq.rs: the mailbox of a service, a queue of messages, a queue of woken
-- tasks and the state that decides who schedules the service. Both queues are lists that grow at
-- the end; each call of a queue or an atomic is one step. A message is a value of any type `M`.
pub mod Overload
pub mod Take
pub mod Fairness
pub mod Schedule
mod Examples
use rskynet.Core.Tasks.{TaskId}
use rskynet.Base.{
  ℕ, zero, suc, ◌+◌, ◌*◌, min, Bool, true, false, List, [], ◌∷◌, ◌++◌, Option, none, some, ltb, leb,
  if◌then◌else◌, wrapping_add, wrapping_sub, ◌%◌, u64_mod,
}

abbrev pub overload_start : ℕ
overload_start = 1024

abbrev pub ready_burst : ℕ
ready_burst = 64

pub data Work (M : Type 0) : Type 0 where
  message : M → Work M
  ready_task : TaskId → Work M

pub data MailboxState : Type 0 where
  idle : MailboxState
  queued : MailboxState
  running : MailboxState
  notified : MailboxState

pub record Mailbox (M : Type 0) : Type 0 where
  pub queue : List M
  pub ready : List TaskId
  pub len : ℕ
  pub state : MailboxState
  pub overload : ℕ
  pub overload_threshold : ℕ
  pub ready_streak : ℕ

-- What the exchange of `Running` for `Idle` gives: the service is let go, there is new work, or the
-- panic of a caller that does not hold the service.
pub data LetGo (M : Type 0) : Type 0 where
  free : Mailbox M → LetGo M
  again : Mailbox M → LetGo M
  not_held : LetGo M

-- What `take_work` gives: work, the idle service, a panic, or no end of the fuel given.
pub data Taken (M : Type 0) : Type 0 where
  taken : Work M → Mailbox M → Taken M
  nothing : Mailbox M → Taken M
  panicked : Taken M
  out_of_fuel : Taken M

-- The loop of `check_overload`, on fuel. The doubling of a `usize` wraps around, as in a build without
-- overflow checks; one with them panics where the number wraps.
unfoldable pub double_past : ℕ → ℕ → ℕ → ℕ
double_past zero length threshold = threshold
double_past (suc fuel) length threshold =
    let more = double_past fuel length (threshold * 2 % u64_mod) in
    if ltb threshold length then more else threshold

module _ {M : Type 0} where
  unfoldable pub new : Mailbox M
  new = record {
    queue = [];
    ready = [];
    len = 0;
    state = queued;
    overload = 0;
    overload_threshold = overload_start;
    ready_streak = 0;
  }

  unfoldable pub notify : Mailbox M → Bool × Mailbox M
  notify b = elim b.state [
    | idle ↦ (true, record b { state = queued })
    | running ↦ (false, record b { state = notified })
    | queued ↦ (false, b)
    | notified ↦ (false, b)
  ]

  -- The first half of `push_message`; `notify` is the other.
  unfoldable pub put_message : M → Mailbox M → Mailbox M
  put_message m b = record b { len = wrapping_add b.len 1; queue = b.queue ++ m ∷ [] }

  -- The first half of `push_ready`.
  unfoldable pub put_ready : TaskId → Mailbox M → Mailbox M
  put_ready t b = record b { ready = b.ready ++ t ∷ [] }

  unfoldable pub push_message : M → Mailbox M → Bool × Mailbox M
  unfolding put_message notify
  push_message m b = notify (put_message m b)

  unfoldable pub push_ready : TaskId → Mailbox M → Bool × Mailbox M
  unfolding put_ready notify
  push_ready t b = notify (put_ready t b)

  -- A positive threshold doubles at most `length` times, if the doubling does not wrap around; if it
  -- comes to 0, the source's loop has no end.
  unfoldable pub check_overload : Mailbox M → Mailbox M
  unfolding double_past
  check_overload b =
      let length = wrapping_sub b.len 1 in
      let counted = record b { len = wrapping_sub b.len 1 } in
      if leb length b.overload_threshold then counted else record counted {
        overload = length;
        overload_threshold = double_past length length b.overload_threshold;
      }

  -- A message is popped, if there is one, and counted.
  unfoldable pub pop_message : Mailbox M → Option (M × Mailbox M)
  unfolding check_overload
  pop_message b = elim b.queue [
    | [] ↦ none
    | m ∷ ms ↦ some (m, check_overload (record b { queue = ms; ready_streak = 0 }))
  ]

  -- The turn of a message after a full burst of tasks.
  unfoldable pub pop_overdue : Mailbox M → Option (M × Mailbox M)
  unfolding pop_message
  pop_overdue b = if leb ready_burst b.ready_streak then pop_message b else none

  unfoldable pub pop_ready : Mailbox M → Option (TaskId × Mailbox M)
  pop_ready b = elim b.ready [
    | [] ↦ none
    | t ∷ ts ↦
        some (t, record b { ready = ts; ready_streak = min (b.ready_streak + 1) ready_burst })
  ]

  -- The end of a round of `take_work`.
  unfoldable pub settle : Mailbox M → LetGo M
  settle b = elim b.state [
    | running ↦ free (record b { state = idle; overload_threshold = overload_start })
    | notified ↦ again (record b { state = running })
    | idle ↦ not_held
    | queued ↦ not_held
  ]

  unfoldable pub take_loop : ℕ → Mailbox M → Taken M
  unfolding pop_overdue pop_message pop_ready settle
  take_loop zero b = out_of_fuel
  take_loop (suc fuel) b = elim (pop_overdue b) [
    | some (m, c) ↦ taken (message m) c
    | none ↦ elim (pop_ready b) [
      | some (t, c) ↦ taken (ready_task t) c
      | none ↦ elim (pop_message b) [
        | some (m, c) ↦ taken (message m) c
        | none ↦ elim (settle b) [
          | free c ↦ nothing c
          | again c ↦ take_loop fuel c
          | not_held ↦ panicked
        ]
      ]
    ]
  ]

  -- `take_work` with no producer in between: the second round finds `Running`.
  unfoldable pub take_work : Mailbox M → Taken M
  unfolding take_loop
  take_work b = take_loop 2 b

  unfoldable pub mark_queued : Mailbox M → Mailbox M
  mark_queued b = record b { state = queued }

  unfoldable pub mark_running : Mailbox M → Mailbox M
  mark_running b = record b { state = running }

  unfoldable pub release : Mailbox M → LetGo M
  release b = elim b.state [
    | running ↦ free (record b { state = idle })
    | notified ↦ again (record b { state = running })
    | idle ↦ not_held
    | queued ↦ not_held
  ]

  -- The reading is returned, and reset.
  unfoldable pub take_overload : Mailbox M → ℕ × Mailbox M
  take_overload b = (b.overload, record b { overload = 0 })

  -- The loop of `drain` over the messages.
  unfoldable pub count_out : List M → ℕ → ℕ
  count_out [] n = n
  count_out (m ∷ ms) n = count_out ms (wrapping_sub n 1)

  unfoldable pub drain : Mailbox M → List M × Mailbox M
  unfolding count_out
  drain b = (b.queue, record b { ready = []; queue = []; len = count_out b.queue b.len })
