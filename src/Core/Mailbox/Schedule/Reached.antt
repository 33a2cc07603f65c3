-- ===== src/Core/Mailbox/Schedule/Reached.antt =====
-- What holds of a service's schedule after any interleaving of producers and workers.
use rskynet.Core.Tasks.{TaskId}
use rskynet.Base.{
  suc, ◌+◌, ◌≤◌, ◌<◌, ◌≡◌, ◌≢◌, refl, sym, ap, subst, ◌∙◌, arith, none, some, List, [], ◌∷◌, ◌⊎◌,
  inl, inr, some_inj, some_ne_none, leb, min, wrapping_sub, Bool-cases,
}
use rskynet.Core.Mailbox.{
  MailboxState, idle, queued, running, notified, Mailbox, new, put_message, put_ready, pop_message,
  pop_overdue, pop_ready, mark_queued, mark_running, check_overload, ready_burst,
}
use rskynet.Core.Mailbox.Schedule.{
  System, Step, Reachable, pushes_message, pushes_ready, notifies, claims, marks_running,
  takes_overdue, takes_ready, finds_no_task, takes_message, finds_no_message, lets_go, scans_again,
  gives_back, drops_ready, drops_message, releases, clears_again, begins, then_steps,
}
use rskynet.Core.Mailbox.Schedule.Sound.{
  holders, parked, IsSound, SoundAs, LetGoSound, drop-IsSound, push-IsSound, notify-IsSound,
  claim-IsSound, mark-IsSound, scan-IsSound, no_task-IsSound, no_work-IsSound, back-IsSound,
  settle-IsSound, release-IsSound,
}

module _ {M : Type 0} where
  state-check_overload : (b : Mailbox M) → (check_overload b).state ≡ b.state
  unfolding check_overload
  state-check_overload b = ground arith

  state-pop_message :
      (b : Mailbox M) (m : M) (c : Mailbox M) → pop_message b ≡ some (m, c) → c.state ≡ b.state
  unfolding pop_message
  state-pop_message b m c e = go b.queue refl
    where
      go : (q : List M) → b.queue ≡ q → c.state ≡ b.state
      go [] q = absurd (some_ne_none (sym e ∙ (rw (q, pop_message) refl)))
      go (x ∷ xs) q =
          let same : some (x, check_overload (record b { queue = xs; ready_streak = 0 }))
              ≡ some (m, c) =
            (rw (q, pop_message) refl) ∙ e in
          ap (λ z. z.1.state) (sym (some_inj same)) ∙ state-check_overload _

  state-pop_overdue :
      (b : Mailbox M) (m : M) (c : Mailbox M) → pop_overdue b ≡ some (m, c) → c.state ≡ b.state
  unfolding pop_overdue
  state-pop_overdue b m c e = elim (Bool-cases (leb ready_burst b.ready_streak)) [
    | inl due ↦ state-pop_message b m c (rw (due, pop_overdue) at e)
    | inr early ↦ absurd (some_ne_none (sym e ∙ (rw (early, pop_overdue) refl)))
  ]

  state-pop_ready :
      (b : Mailbox M) (t : TaskId) (c : Mailbox M) → pop_ready b ≡ some (t, c) → c.state ≡ b.state
  unfolding pop_ready
  state-pop_ready b t c e = go b.ready refl
    where
      go : (r : List TaskId) → b.ready ≡ r → c.state ≡ b.state
      go [] q = absurd (some_ne_none (sym e ∙ (rw (q, pop_ready) refl)))
      go (x ∷ xs) q =
          let same : some
                (x, record b { ready = xs; ready_streak = min (b.ready_streak + 1) ready_burst })
              ≡ some (t, c) =
            (rw (q, pop_ready) refl) ∙ e in
          ap (λ z. z.1.state) (sym (some_inj same))

  ready-pop_ready : (b : Mailbox M) → pop_ready b ≡ none → b.ready ≡ []
  unfolding pop_ready
  ready-pop_ready b e = go b.ready refl
    where
      go : (r : List TaskId) → b.ready ≡ r → b.ready ≡ []
      go [] q = q
      go (x ∷ xs) q = absurd (some_ne_none (rw (q, pop_ready) at e))

  queue-pop_message : (b : Mailbox M) → pop_message b ≡ none → b.queue ≡ []
  unfolding pop_message
  queue-pop_message b e = go b.queue refl
    where
      go : (r : List M) → b.queue ≡ r → b.queue ≡ []
      go [] q = q
      go (x ∷ xs) q = absurd (some_ne_none (rw (q, pop_message) at e))

  -- A worker at the start of its scan, whose mailbox changes in all but its state.
  popped-IsSound :
      (s t : System M)
      → t.box.state ≡ s.box.state
      → parked t ≡ parked s
      → holders t ≡ holders s
      → t.no_task + t.no_work < holders t
      → IsSound s
      → IsSound t
  popped-IsSound s t e f g k v =
      subst (λ st. SoundAs st t) (sym e) (scan-IsSound s.box.state s t f g k v)

  Step-IsSound : (s t : System M) → Step s t → IsSound s → IsSound t
  unfolding put_message put_ready LetGoSound mark_running mark_queued
  Step-IsSound s _ (pushes_message _ m) v = push-IsSound s.box.state s (put_message m s.box) v
  Step-IsSound s _ (pushes_ready _ t) v = push-IsSound s.box.state s (put_ready t s.box) v
  Step-IsSound s _ (notifies _ n e) v = notify-IsSound s n e v
  Step-IsSound s _ (claims _ n e) v = claim-IsSound s.box.state s n e v
  Step-IsSound s _ (marks_running _ n e) v = mark-IsSound s.box.state s n e v
  Step-IsSound s _ (takes_overdue _ n m b e f) v =
      popped-IsSound s (record s { box = b }) (state-pop_overdue s.box m b f) refl refl
        (omega arith) v
  Step-IsSound s _ (takes_ready _ n t b e f) v =
      popped-IsSound s (record s { box = b }) (state-pop_ready s.box t b f) refl refl (omega arith)
        v
  Step-IsSound s _ (finds_no_task _ n e f) v =
      no_task-IsSound s.box.state s n e (ready-pop_ready s.box f) v
  Step-IsSound s _ (takes_message _ n m b e f) v =
      popped-IsSound s (record s { box = b; no_task = n; working = suc s.working })
        (state-pop_message s.box m b f) refl (omega arith) (omega arith) v
  Step-IsSound s _ (finds_no_message _ n e f) v =
      no_work-IsSound s.box.state s n e (queue-pop_message s.box f) v
  Step-IsSound s _ (lets_go _ n b e f) v = subst (LetGoSound s n) f (settle-IsSound s n e v)
  Step-IsSound s _ (scans_again _ n b e f) v = subst (LetGoSound s n) f (settle-IsSound s n e v)
  Step-IsSound s _ (gives_back _ n e) v = back-IsSound s.box.state s n e v
  Step-IsSound s _ (drops_ready _ n t ts e f) v =
      popped-IsSound s (record s { box = record s.box { ready = ts } }) refl refl refl (omega arith)
        v
  Step-IsSound s _ (drops_message _ n m ms e f) v =
      drop-IsSound s.box.state s n ms (wrapping_sub s.box.len 1) e v
  Step-IsSound s _ (releases _ n b e f) v = subst (LetGoSound s n) f (release-IsSound s n e v)
  Step-IsSound s _ (clears_again _ n b e f) v = subst (LetGoSound s n) f (release-IsSound s n e v)

  Reachable-IsSound : (s : System M) → Reachable s → IsSound s
  unfolding new
  Reachable-IsSound _ begins = (omega arith, omega arith)
  Reachable-IsSound _ (then_steps s t r e) = Step-IsSound s t e (Reachable-IsSound s r)

  -- Whatever producers and workers do, one worker at most has the service, and while one runs it,
  -- the service stands in no run queue and in no other hand.
  pub one_worker :
      (s : System M)
      → Reachable s
      → (s.claimed + holders s ≤ 1) × (0 < holders s → s.listed + s.claimed ≡ 0)
  one_worker s r = go s.box.state (Reachable-IsSound s r)
    where
      go :
          (st : MailboxState)
          → SoundAs st s
          → (s.claimed + holders s ≤ 1) × (0 < holders s → s.listed + s.claimed ≡ 0)
      go idle (a, b, d) = (omega arith, λ k. omega arith)
      go queued (a, b) = (omega arith, λ k. omega arith)
      go running (a, b, d, f) = (omega arith, λ k. omega arith)
      go notified (a, b) = (omega arith, λ k. omega arith)

  -- No wakeup is lost: once every producer that pushed has notified, a mailbox with a message or a
  -- task has its service in exactly one place, a run queue or a worker; and a worker that is about
  -- to let the service go finds that it was notified.
  pub no_lost_work :
      (s : System M)
      → Reachable s
      → s.pushed ≡ 0
      → (s.box.ready ≢ []) ⊎ (s.box.queue ≢ [])
      → (s.listed + s.claimed + holders s ≡ 1) × (0 < s.no_work → s.box.state ≡ notified)
  no_lost_work s r p waits = go s.box.state refl (Reachable-IsSound s r)
    where
      refuted : {X : Type 0} → (s.box.ready ≡ []) × (s.box.queue ≡ []) → X
      refuted (a, b) = elim waits [ inl n ↦ absurd (n a) | inr n ↦ absurd (n b) ]

      go :
          (st : MailboxState)
          → s.box.state ≡ st
          → SoundAs st s
          → (s.listed + s.claimed + holders s ≡ 1) × (0 < s.no_work → s.box.state ≡ notified)
      go idle e (a, b, d) = refuted (d p)
      go queued e (a, b) = (omega arith, λ k. absurd (omega arith))
      go running e (a, b, d, f) = (omega arith, λ k. refuted (f p k))
      go notified e (a, b) = (omega arith, λ k. e)
