-- ===== src/Core/Mailbox/Schedule.antt =====
-- The schedule of one service under interleaving: producers that push and then notify, and workers
-- that take the service from a run queue, scan its mailbox and let it go.
pub mod Sound
pub mod Reached
use rskynet.Core.Tasks.{TaskId}
use rskynet.Base.{
  ℕ, zero, suc, ◌+◌, ◌≤◌, ◌<◌, ◌≡◌, ◌≢◌, refl, sym, ap, subst, ◌∙◌, arith, Bool, true, false,
  Option, none, some, List, [], ◌∷◌, ◌++◌, if◌then◌else◌, wrapping_sub,
}
use rskynet.Core.Mailbox.{
  MailboxState, idle, queued, running, notified, Mailbox, LetGo, free, again, not_held, new, notify,
  put_message, put_ready, pop_message, pop_overdue, pop_ready, settle, mark_queued, mark_running,
  release, check_overload,
}

-- `pushed` producers have pushed and not yet notified. The service stands `listed` times in a run
-- queue, or in the hand of one that is about to put it there. `claimed` workers took it from a run
-- queue and did not yet mark it running; the other holders run it, or have seen no ready task in
-- this scan, or have seen neither a task nor a message.
pub record System (M : Type 0) : Type 0 where
  pub box : Mailbox M
  pub pushed : ℕ
  pub listed : ℕ
  pub claimed : ℕ
  pub working : ℕ
  pub no_task : ℕ
  pub no_work : ℕ

module _ {M : Type 0} where
  -- A service is created queued, and its creator lists it.
  abbrev pub start : System M
  start = record {
    box = new;
    pushed = 0;
    listed = 1;
    claimed = 0;
    working = 0;
    no_task = 0;
    no_work = 0;
  }

-- One step of a producer or of a worker. A worker's steps are those of `take_work`, of giving the
-- service back, and of the destruction, which drains the mailbox and then releases it.
pub data Step {M : Type 0} : System M → System M → Type 0 where
  pushes_message :
      (s : System M) (m : M)
      → Step s (record s { box = put_message m s.box; pushed = suc s.pushed })
  pushes_ready :
      (s : System M) (t : TaskId)
      → Step s (record s { box = put_ready t s.box; pushed = suc s.pushed })
  notifies :
      (s : System M) (n : ℕ)
      → s.pushed ≡ suc n
      → Step s (record s {
        pushed = n;
        box = (notify s.box).1;
        listed = if (notify s.box).0 then suc s.listed else s.listed;
      })
  claims :
      (s : System M) (n : ℕ)
      → s.listed ≡ suc n
      → Step s (record s { listed = n; claimed = suc s.claimed })
  marks_running :
      (s : System M) (n : ℕ)
      → s.claimed ≡ suc n
      → Step s (record s { box = mark_running s.box; claimed = n; working = suc s.working })
  takes_overdue :
      (s : System M) (n : ℕ) (m : M) (b : Mailbox M)
      → s.working ≡ suc n
      → pop_overdue s.box ≡ some (m, b)
      → Step s (record s { box = b })
  takes_ready :
      (s : System M) (n : ℕ) (t : TaskId) (b : Mailbox M)
      → s.working ≡ suc n
      → pop_ready s.box ≡ some (t, b)
      → Step s (record s { box = b })
  finds_no_task :
      (s : System M) (n : ℕ)
      → s.working ≡ suc n
      → pop_ready s.box ≡ none
      → Step s (record s { working = n; no_task = suc s.no_task })
  takes_message :
      (s : System M) (n : ℕ) (m : M) (b : Mailbox M)
      → s.no_task ≡ suc n
      → pop_message s.box ≡ some (m, b)
      → Step s (record s { box = b; no_task = n; working = suc s.working })
  finds_no_message :
      (s : System M) (n : ℕ)
      → s.no_task ≡ suc n
      → pop_message s.box ≡ none
      → Step s (record s { no_task = n; no_work = suc s.no_work })
  lets_go :
      (s : System M) (n : ℕ) (b : Mailbox M)
      → s.no_work ≡ suc n
      → settle s.box ≡ free b
      → Step s (record s { box = b; no_work = n })
  scans_again :
      (s : System M) (n : ℕ) (b : Mailbox M)
      → s.no_work ≡ suc n
      → settle s.box ≡ again b
      → Step s (record s { box = b; no_work = n; working = suc s.working })
  gives_back :
      (s : System M) (n : ℕ)
      → s.working ≡ suc n
      → Step s (record s { box = mark_queued s.box; working = n; listed = suc s.listed })
  drops_ready :
      (s : System M) (n : ℕ) (t : TaskId) (ts : List TaskId)
      → s.working ≡ suc n
      → s.box.ready ≡ t ∷ ts
      → Step s (record s { box = record s.box { ready = ts } })
  drops_message :
      (s : System M) (n : ℕ) (m : M) (ms : List M)
      → s.no_task ≡ suc n
      → s.box.queue ≡ m ∷ ms
      → Step s (record s { box = record s.box { queue = ms; len = wrapping_sub s.box.len 1 } })
  releases :
      (s : System M) (n : ℕ) (b : Mailbox M)
      → s.no_work ≡ suc n
      → release s.box ≡ free b
      → Step s (record s { box = b; no_work = n })
  clears_again :
      (s : System M) (n : ℕ) (b : Mailbox M)
      → s.no_work ≡ suc n
      → release s.box ≡ again b
      → Step s (record s { box = b; no_work = n; working = suc s.working })

pub data Reachable {M : Type 0} : System M → Type 0 where
  begins : Reachable start
  then_steps : (s t : System M) → Reachable s → Step s t → Reachable t
