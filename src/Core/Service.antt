-- ===== src/Core/Service.antt =====
-- crates/rskynet-core/src/server.rs: the context of a service, run by the thread that holds it, on the
-- mailbox, the sessions and the tasks of the other modules. A future is a value of any type `F`. The
-- code of a service is a parameter: to dispatch a message and to poll a future are functions that may
-- do anything to the context. What a step does outside of the context is its list of events. The
-- logging, the monitor's marks and the cost of a poll are left out.
pub mod Run
pub mod Cleanup
pub mod Release
pub mod Startup
pub mod Turn
mod Examples
use Prim.Native.String.{String}
use rskynet.Base.{
  ℕ, zero, suc, ◌+◌, ◌*◌, Bool, true, false, not, ◌&&◌, List, [], ◌∷◌, ◌++◌, map, Option, none,
  some, ◌==◌, leb, if◌then◌else◌, wrapping_add, saturating_add, min, u64_max,
}
use rskynet.Core.Error.{Error, call_failed, Result, ok, err}
use rskynet.Core.Message.{Message, error_type, is_reply, needs_reply}
use rskynet.Core.Session.{SessionTable, complete, clear}
use rskynet.Core.Tasks.{
  TaskId, TaskSlot, TaskSet, insert_task, take, restore, remove, take_requests, drain_tasks,
}
use rskynet.Core.Mailbox.{
  Mailbox, Work, message, ready_task, LetGo, free, again, not_held, Taken, taken, nothing, panicked,
  out_of_fuel, push_message, push_ready, put_message, put_ready, notify, take_work, release, drain,
}

pub data Lifecycle : Type 0 where
  initializing : Lifecycle
  running_service : Lifecycle
  failed : Lifecycle

-- The result that the caller of a launch waits for.
pub data InitResult : Type 0 where
  started : InitResult
  not_started : String → InitResult

pub record Service (F P W : Type 0) : Type 0 where
  pub handle : ℕ
  pub mailbox : Mailbox (Message P)
  pub sessions : SessionTable P W
  pub tasks : TaskSet F
  pub lifecycle : Lifecycle
  pub init : Option InitResult
  pub init_self_exit : Bool
  pub pending_messages : Option (List (Message P))
  pub dead : Bool
  pub message_count : ℕ

-- What a step does outside of the context: the waker of a call is woken, the executor is told of
-- new work, an error answers a request (to a service, with its session), a future is dropped, a long
-- queue is reported, or the process panics.
pub data Event (F W : Type 0) : Type 0 where
  wakes : W → Event F W
  schedules : Event F W
  sends_error : ℕ → ℕ → Event F W
  drops : F → Event F W
  logs_overload : ℕ → Event F W
  panics : Event F W

-- `std::task::Poll` of a future that is given back if it is not ready.
pub data Polled (F : Type 0) : Type 0 where
  finished : Polled F
  not_yet : F → Polled F

abbrev pub is_running : Lifecycle → Bool
is_running running_service = true
is_running initializing = false
is_running failed = false

abbrev pub is_initializing : Lifecycle → Bool
is_initializing initializing = true
is_initializing running_service = false
is_initializing failed = false

-- `InitShared::complete`: the first result stays.
abbrev pub complete_init : InitResult → Option InitResult → Option InitResult
complete_init r none = some r
complete_init r (some old) = some old

-- The result that counts for a service which was killed before.
abbrev pub judge_init : InitResult → Bool → InitResult
judge_init started true = not_started "服务在初始化完成前被终止"
judge_init started false = started
judge_init (not_started why) killed = not_started why

abbrev pub lifecycle_after : InitResult → Lifecycle
lifecycle_after started = running_service
lifecycle_after (not_started why) = failed

module _ {F W : Type 0} where
  -- `wake`: the executor of the service is told if nobody held it.
  abbrev pub wake : Bool → List (Event F W)
  wake queued = if queued then schedules ∷ [] else []

  -- The error that answers a request.
  abbrev pub error_to : ℕ × ℕ → Event F W
  error_to r = sends_error r.0 r.1

  abbrev pub dropped : F → Event F W
  dropped f = drops f

-- The steps of other threads on the mailbox: the first half of `push_message` or `push_ready`, and the
-- other half of either, which comes later and maybe after steps of others.
pub data Arrival (P : Type 0) : Type 0 where
  puts : Message P → Arrival P
  puts_ready : TaskId → Arrival P
  notifies : Arrival P

module _ {P : Type 0} where
  -- Whether an error answers a message that nobody handles any more.
  abbrev pub is_answerable : Message P → Bool
  is_answerable m = needs_reply m && not (m.source == 0) && not (is_reply m.mtype)

  -- A step of another thread meets the mailbox.
  abbrev pub meet : Arrival P → Mailbox (Message P) → Mailbox (Message P)
  meet (puts m) b = put_message m b
  meet (puts_ready t) b = put_ready t b
  meet notifies b = (notify b).1

  abbrev pub meet_all : List (Arrival P) → Mailbox (Message P) → Mailbox (Message P)
  meet_all [] b = b
  meet_all (x ∷ xs) b = meet_all xs (meet x b)

  -- What others do while a round goes on, and during later rounds.
  abbrev pub arriving : List (List (Arrival P)) → List (Arrival P)
  arriving [] = []
  arriving (xs ∷ xss) = xs

  abbrev pub later : List (List (Arrival P)) → List (List (Arrival P))
  later [] = []
  later (xs ∷ xss) = xss

module _ {F P W : Type 0} where
  unfoldable pub finish_init : InitResult → Service F P W → Service F P W
  finish_init result s =
      let judged = judge_init result (s.dead && not s.init_self_exit) in
      record s { lifecycle = lifecycle_after judged; init = complete_init judged s.init }

  -- The front of the pending queue; the queue goes once it is empty.
  unfoldable pub take_pending : Service F P W → Option (Message P) × Service F P W
  take_pending s = elim s.pending_messages [
    | none ↦ (none, s)
    | some [] ↦ (none, record s { pending_messages = none })
    | some (m ∷ ms) ↦ (some m, record s { pending_messages = some ms })
  ]

  unfoldable pub push : Message P → Service F P W → List (Event F W) × Service F P W
  push m s =
      let (queued, mailbox) = push_message m s.mailbox in
      (wake queued, record s { mailbox = mailbox })

  unfoldable pub wake_task : TaskId → Service F P W → List (Event F W) × Service F P W
  wake_task task s =
      let (queued, mailbox) = push_ready task s.mailbox in
      (wake queued, record s { mailbox = mailbox })

  -- `fail_inflight` of the holder.
  unfoldable pub fail_inflight : Service F P W → List (Event F W) × Service F P W
  fail_inflight s =
      let (requests, tasks) = take_requests s.tasks in
      (map error_to requests, record s { tasks = tasks })

  unfoldable pub fail_messages : List (Message P) → List (Event F W)
  fail_messages [] = []
  fail_messages (m ∷ ms) =
      let rest = fail_messages ms in
      if is_answerable m then sends_error m.source m.session ∷ rest else rest

  abbrev pub pending_of : Service F P W → List (Message P)
  pending_of s = elim s.pending_messages [ none ↦ [] | some ms ↦ ms ]

  -- A round of `cleanup` up to `release`.
  unfoldable pub cleanup_round : Service F P W → List (Event F W) × Service F P W
  unfolding fail_inflight fail_messages finish_init
  cleanup_round s =
      let (errors, inflight) = fail_inflight s in
      let (futures, tasks) = drain_tasks inflight.tasks in
      let (left, mailbox) = drain s.mailbox in
      let cleaned = record s {
        tasks = tasks;
        sessions = clear s.sessions;
        mailbox = mailbox;
        pending_messages = none;
      } in
      (
        errors ++ map dropped futures ++ fail_messages left ++ fail_messages (pending_of s),
        if is_initializing s.lifecycle
            then finish_init (not_started "服务在初始化完成前退出") cleaned
            else cleaned,
      )

  -- The service after the others' steps of a round.
  abbrev pub met : List (List (Arrival P)) → Service F P W → Service F P W
  met arrivals s = record s { mailbox = meet_all (arriving arrivals) s.mailbox }

-- What `cleanup` gives: the released service, the panic of a thread that does not hold it, or no end
-- of the fuel given.
pub data Cleaned (F P W : Type 0) : Type 0 where
  cleaned : List (Event F W) → Service F P W → Cleaned F P W
  not_holder : Cleaned F P W
  unfinished : Cleaned F P W

module _ {F P W : Type 0} where
  abbrev pub after : List (Event F W) → Cleaned F P W → Cleaned F P W
  after es (cleaned fs s) = cleaned (es ++ fs) s
  after es not_holder = not_holder
  after es unfinished = unfinished

  -- The loop of `cleanup`; the lists are the steps of other threads from one round's drain to its
  -- release. That is every order: a put before the drain is one behind the drain of the round
  -- before, since `release` does not look at the queues, or one of the mailbox at the start; and
  -- a notification before the drain is one behind it, since the drain does not look at the state.
  unfoldable pub cleanup : ℕ → List (List (Arrival P)) → Service F P W → Cleaned F P W
  unfolding cleanup_round
  cleanup zero arrivals s = unfinished
  cleanup (suc fuel) arrivals s =
      let (events, t) = cleanup_round s in
      let u = met arrivals t in
      elim (release u.mailbox) [
        | free b ↦ cleaned events (record u { mailbox = b })
        | again b ↦ after events (cleanup fuel (later arrivals) (record u { mailbox = b }))
        | not_held ↦ not_holder
      ]
