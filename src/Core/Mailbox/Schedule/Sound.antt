-- ===== src/Core/Mailbox/Schedule/Sound.antt =====
-- Under any interleaving one worker at most holds a service, and no work is left behind.
use rskynet.Core.Tasks.{TaskId}
use rskynet.Base.{ℕ, suc, ◌+◌, ◌<◌, ◌≡◌, refl, arith, List, [], if◌then◌else◌}
use rskynet.Core.Mailbox.{
  MailboxState, idle, queued, running, notified, Mailbox, LetGo, free, again, not_held, notify,
  settle, mark_queued, mark_running, release,
}
use rskynet.Core.Mailbox.Schedule.{System}

module _ {M : Type 0} where
  -- The workers that hold the service.
  abbrev pub holders : System M → ℕ
  holders s = s.working + s.no_task + s.no_work

  -- What the state says of where the service stands, and of the work that can be waiting when no
  -- producer is about to notify.
  abbrev pub Sound :
      MailboxState → (pushed parked held no_task no_work : ℕ) → List TaskId → List M → Type 0
  Sound idle p l h t w rs qs = (l ≡ 0) × (h ≡ 0) × (p ≡ 0 → (rs ≡ []) × (qs ≡ []))
  Sound queued p l h t w rs qs = (l ≡ 1) × (h ≡ 0)
  Sound running p l h t w rs qs =
      (l ≡ 0) × (h ≡ 1) × (p ≡ 0 → 0 < t → rs ≡ []) × (p ≡ 0 → 0 < w → (rs ≡ []) × (qs ≡ []))
  Sound notified p l h t w rs qs = (l ≡ 0) × (h ≡ 1)

  abbrev pub IsSound : System M → Type 0
  IsSound s =
      Sound s.box.state s.pushed (s.listed + s.claimed) (holders s) s.no_task s.no_work s.box.ready
        s.box.queue

  abbrev pub SoundAs : MailboxState → System M → Type 0
  SoundAs st s =
      Sound st s.pushed (s.listed + s.claimed) (holders s) s.no_task s.no_work s.box.ready
        s.box.queue

  abbrev pub parked : System M → ℕ
  parked s = s.listed + s.claimed

  -- A push makes one more producer that is about to notify, whatever becomes of the queues.
  pub push-IsSound :
      (st : MailboxState) (s : System M) (b : Mailbox M)
      → SoundAs st s
      → SoundAs st (record s { box = b; pushed = suc s.pushed })
  push-IsSound idle s b (x, y, d) = (x, y, λ e. absurd (omega arith))
  push-IsSound queued s b v = v
  push-IsSound running s b (x, y, d, f) =
      (x, y, (λ e. absurd (omega arith)), λ e. absurd (omega arith))
  push-IsSound notified s b v = v

  pub notify-IsSound :
      (s : System M) (n : ℕ)
      → s.pushed ≡ suc n
      → IsSound s
      → IsSound (record s {
        pushed = n;
        box = (notify s.box).1;
        listed = if (notify s.box).0 then suc s.listed else s.listed;
      })
  unfolding notify
  notify-IsSound s n e v = go s.box.state refl v
    where
      go :
          (st : MailboxState)
          → s.box.state ≡ st
          → SoundAs st s
          → IsSound (record s {
            pushed = n;
            box = (notify s.box).1;
            listed = if (notify s.box).0 then suc s.listed else s.listed;
          })
      go idle q (a, b, d) = rw (q, notify) (omega arith, b)
      go queued q v = rw (q, notify, q) v
      go running q (a, b, d, f) = rw (q, notify) (a, b)
      go notified q v = rw (q, notify, q) v

  -- The service moves from the run queue to the hand of a worker, and the worker marks it.
  pub claim-IsSound :
      (st : MailboxState) (s : System M) (n : ℕ)
      → s.listed ≡ suc n
      → SoundAs st s
      → SoundAs st (record s { listed = n; claimed = suc s.claimed })
  claim-IsSound idle s n e (a, b, d) = (omega arith, b, d)
  claim-IsSound queued s n e (a, b) = (omega arith, b)
  claim-IsSound running s n e (a, b, d, f) = (omega arith, b, d, f)
  claim-IsSound notified s n e (a, b) = (omega arith, b)

  pub mark-IsSound :
      (st : MailboxState) (s : System M) (n : ℕ)
      → s.claimed ≡ suc n
      → SoundAs st s
      → SoundAs running
          (record s { box = mark_running s.box; claimed = n; working = suc s.working })
  mark-IsSound idle s n e (a, b, d) = absurd (omega arith)
  mark-IsSound queued s n e (a, b) =
      (omega arith, omega arith, (λ q g. absurd (omega arith)), λ q g. absurd (omega arith))
  mark-IsSound running s n e (a, b, d, f) = absurd (omega arith)
  mark-IsSound notified s n e (a, b) = absurd (omega arith)

  -- A worker at the start of its scan may find or drop anything.
  pub scan-IsSound :
      (st : MailboxState) (s t : System M)
      → parked t ≡ parked s
      → holders t ≡ holders s
      → t.no_task + t.no_work < holders t
      → SoundAs st s
      → SoundAs st t
  scan-IsSound idle s t e f k (a, b, d) = absurd (omega arith)
  scan-IsSound queued s t e f k (a, b) = (omega arith, omega arith)
  scan-IsSound running s t e f k (a, b, d, g) =
      (omega arith, omega arith, (λ q r. absurd (omega arith)), λ q r. absurd (omega arith))
  scan-IsSound notified s t e f k (a, b) = (omega arith, omega arith)

  pub no_task-IsSound :
      (st : MailboxState) (s : System M) (n : ℕ)
      → s.working ≡ suc n
      → s.box.ready ≡ []
      → SoundAs st s
      → SoundAs st (record s { working = n; no_task = suc s.no_task })
  no_task-IsSound idle s n e z (a, b, d) = absurd (omega arith)
  no_task-IsSound queued s n e z (a, b) = (a, omega arith)
  no_task-IsSound running s n e z (a, b, d, f) =
      (a, omega arith, (λ q g. z), λ q g. absurd (omega arith))
  no_task-IsSound notified s n e z (a, b) = (a, omega arith)

  -- A worker that has seen no task may drop a message.
  pub drop-IsSound :
      (st : MailboxState) (s : System M) (n : ℕ) (qs : List M) (len : ℕ)
      → s.no_task ≡ suc n
      → SoundAs st s
      → SoundAs st (record s { box = record s.box { queue = qs; len = len } })
  drop-IsSound idle s n qs len e (a, b, d) = absurd (omega arith)
  drop-IsSound queued s n qs len e v = v
  drop-IsSound running s n qs len e (a, b, d, f) = (a, b, d, λ q g. absurd (omega arith))
  drop-IsSound notified s n qs len e v = v

  pub no_work-IsSound :
      (st : MailboxState) (s : System M) (n : ℕ)
      → s.no_task ≡ suc n
      → s.box.queue ≡ []
      → SoundAs st s
      → SoundAs st (record s { no_task = n; no_work = suc s.no_work })
  no_work-IsSound idle s n e z (a, b, d) = absurd (omega arith)
  no_work-IsSound queued s n e z (a, b) = (a, omega arith)
  no_work-IsSound running s n e z (a, b, d, f) =
      (a, omega arith, (λ q g. d q (omega arith)), λ q g. (d q (omega arith), z))
  no_work-IsSound notified s n e z (a, b) = (a, omega arith)

  pub back-IsSound :
      (st : MailboxState) (s : System M) (n : ℕ)
      → s.working ≡ suc n
      → SoundAs st s
      → SoundAs queued (record s { box = mark_queued s.box; working = n; listed = suc s.listed })
  back-IsSound idle s n e (a, b, d) = absurd (omega arith)
  back-IsSound queued s n e (a, b) = absurd (omega arith)
  back-IsSound running s n e (a, b, d, f) = (omega arith, omega arith)
  back-IsSound notified s n e (a, b) = (omega arith, omega arith)

  -- The service is let go, or the worker scans again.
  unfoldable pub LetGoSound : System M → ℕ → LetGo M → Type 0
  LetGoSound s n (free b) = IsSound (record s { box = b; no_work = n })
  LetGoSound s n (again b) = IsSound (record s { box = b; no_work = n; working = suc s.working })
  LetGoSound s n not_held = ℕ

  pub settle-IsSound :
      (s : System M) (n : ℕ) → s.no_work ≡ suc n → IsSound s → LetGoSound s n (settle s.box)
  unfolding settle LetGoSound
  settle-IsSound s n e v = go s.box.state refl v
    where
      go : (st : MailboxState) → s.box.state ≡ st → SoundAs st s → LetGoSound s n (settle s.box)
      go idle q (a, b, d) = absurd (omega arith)
      go queued q (a, b) = absurd (omega arith)
      go running q (a, b, d, f) =
          rw (q, settle, LetGoSound) (a, omega arith, λ z. f z (omega arith))
      go notified q (a, b) =
          rw (q, settle, LetGoSound)
            (a, omega arith, (λ z g. absurd (omega arith)), λ z g. absurd (omega arith))

  pub release-IsSound :
      (s : System M) (n : ℕ) → s.no_work ≡ suc n → IsSound s → LetGoSound s n (release s.box)
  unfolding release LetGoSound
  release-IsSound s n e v = go s.box.state refl v
    where
      go : (st : MailboxState) → s.box.state ≡ st → SoundAs st s → LetGoSound s n (release s.box)
      go idle q (a, b, d) = absurd (omega arith)
      go queued q (a, b) = absurd (omega arith)
      go running q (a, b, d, f) =
          rw (q, release, LetGoSound) (a, omega arith, λ z. f z (omega arith))
      go notified q (a, b) =
          rw (q, release, LetGoSound)
            (a, omega arith, (λ z g. absurd (omega arith)), λ z g. absurd (omega arith))
