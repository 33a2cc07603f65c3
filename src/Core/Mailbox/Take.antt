-- ===== src/Core/Mailbox/Take.antt =====
-- Taking work: every branch of `take_work`, and the turn of the messages.
use rskynet.Core.Tasks.{TaskId}
use rskynet.Base.{
  ℕ, suc, ◌+◌, ◌≤◌, ◌<◌, ◌≡◌, refl, sym, ap, subst, ◌∙◌, arith, true, false, Bool-cases, ◌⊎◌, inl,
  inr, leb, List, [], ◌∷◌, none, some, min, length,
}
use rskynet.Core.Mailbox.{
  Mailbox, idle, running, notified, message, ready_task, Taken, taken, nothing, panicked,
  out_of_fuel, LetGo, free, again, not_held, check_overload, pop_message, pop_overdue, pop_ready,
  settle, take_loop, take_work, ready_burst, overload_start,
}

module _ {M : Type 0} where
  -- What `take_work` may give from a mailbox: by each outcome, what was taken and why it was its
  -- turn, and what is left.
  abbrev pub Fits : Mailbox M → Taken M → Type 0
  Fits b (taken (message m) c) =
      (b.queue ≡ m ∷ c.queue)
      × (c.ready ≡ b.ready)
      × (c.ready_streak ≡ 0)
      × ((ready_burst ≤ b.ready_streak) ⊎ (b.ready ≡ []))
  Fits b (taken (ready_task t) c) =
      (b.ready ≡ t ∷ c.ready)
      × (c.queue ≡ b.queue)
      × (c.ready_streak ≡ min (b.ready_streak + 1) ready_burst)
      × ((b.ready_streak < ready_burst) ⊎ (b.queue ≡ []))
  Fits b (nothing c) =
      (b.queue ≡ []) × (b.ready ≡ []) × (c.queue ≡ []) × (c.ready ≡ []) × (c.state ≡ idle)
  Fits b panicked = true ≡ false
  Fits b out_of_fuel = true ≡ false

  check_overload-same :
      (b : Mailbox M)
      → let c = check_overload b in
        (c.queue ≡ b.queue)
        × (c.ready ≡ b.ready)
        × (c.ready_streak ≡ b.ready_streak)
        × (c.state ≡ b.state)
  unfolding check_overload
  check_overload-same b = ground arith

  overdue : (b : Mailbox M) → ready_burst ≤ b.ready_streak → pop_overdue b ≡ pop_message b
  unfolding pop_overdue
  overdue b k =
      let due : leb ready_burst b.ready_streak ≡ true = ground arith in rw (pop_overdue, due) refl

  not_overdue : (b : Mailbox M) → b.ready_streak < ready_burst → pop_overdue b ≡ none
  unfolding pop_overdue
  not_overdue b k =
      let due : leb ready_burst b.ready_streak ≡ false = ground arith in rw (pop_overdue, due) refl

  popped : Mailbox M → List M → Mailbox M
  popped b ms = check_overload (record b { queue = ms; ready_streak = 0 })

  pop-cons :
      (b : Mailbox M) (m : M) (ms : List M)
      → b.queue ≡ m ∷ ms
      → pop_message b ≡ some (m, popped b ms)
  unfolding pop_message popped
  pop-cons b m ms e = rw (e, pop_message, popped) refl

  pop-nil : (b : Mailbox M) → b.queue ≡ [] → pop_message b ≡ none
  unfolding pop_message
  pop-nil b e = rw (e, pop_message) refl

  woken : Mailbox M → List TaskId → Mailbox M
  woken b ts = record b { ready = ts; ready_streak = min (b.ready_streak + 1) ready_burst }

  ready-cons :
      (b : Mailbox M) (t : TaskId) (ts : List TaskId)
      → b.ready ≡ t ∷ ts
      → pop_ready b ≡ some (t, woken b ts)
  unfolding pop_ready woken
  ready-cons b t ts e = rw (e, pop_ready, woken) refl

  ready-nil : (b : Mailbox M) → b.ready ≡ [] → pop_ready b ≡ none
  unfolding pop_ready
  ready-nil b e = rw (e, pop_ready) refl

  no_overdue :
      (b : Mailbox M) → (b.queue ≡ []) ⊎ (b.ready_streak < ready_burst) → pop_overdue b ≡ none
  no_overdue b (inr k) = not_overdue b k
  no_overdue b (inl e) = elim (Bool-cases (leb ready_burst b.ready_streak)) [
    | inl due ↦ overdue b (ground arith) ∙ pop-nil b e
    | inr early ↦ not_overdue b (ground arith)
  ]

  -- The rounds of the loop by what the queues give.
  loop-overdue :
      (fuel : ℕ) (b : Mailbox M) (m : M) (c : Mailbox M)
      → pop_overdue b ≡ some (m, c)
      → take_loop (suc fuel) b ≡ taken (message m) c
  unfolding take_loop
  loop-overdue fuel b m c e = rw (take_loop, e) refl

  loop-ready :
      (fuel : ℕ) (b : Mailbox M) (t : TaskId) (c : Mailbox M)
      → pop_overdue b ≡ none
      → pop_ready b ≡ some (t, c)
      → take_loop (suc fuel) b ≡ taken (ready_task t) c
  unfolding take_loop
  loop-ready fuel b t c e f = rw (take_loop, e, f) refl

  loop-message :
      (fuel : ℕ) (b : Mailbox M) (m : M) (c : Mailbox M)
      → pop_overdue b ≡ none
      → pop_ready b ≡ none
      → pop_message b ≡ some (m, c)
      → take_loop (suc fuel) b ≡ taken (message m) c
  unfolding take_loop
  loop-message fuel b m c e f g = rw (take_loop, e, f, g) refl

  settled : ℕ → LetGo M → Taken M
  settled fuel (free c) = nothing c
  settled fuel (again c) = take_loop fuel c
  settled fuel not_held = panicked

  loop-settle :
      (fuel : ℕ) (b : Mailbox M) (r : LetGo M)
      → b.queue ≡ []
      → b.ready ≡ []
      → settle b ≡ r
      → take_loop (suc fuel) b ≡ settled fuel r
  unfolding take_loop settled
  loop-settle fuel b r e f g =
      rw (take_loop, no_overdue b (inl e), ready-nil b f, pop-nil b e, g) refl

  -- A message's turn: the burst is over, or no task is ready.
  message-Fits :
      (fuel : ℕ) (b : Mailbox M) (m : M) (ms : List M)
      → b.queue ≡ m ∷ ms
      → (ready_burst ≤ b.ready_streak) ⊎ (b.ready ≡ [])
      → Fits b (take_loop (suc fuel) b)
  unfolding popped
  message-Fits fuel b m ms e turn =
      let (q, r, s, t) = check_overload-same (record b { queue = ms; ready_streak = 0 }) in
      let fits : Fits b (taken (message m) (popped b ms)) =
        (e ∙ ap (λ l. m ∷ l) (sym q), r, s, turn) in
      subst (Fits b) (sym (loops turn)) fits
    where
      loops :
          (ready_burst ≤ b.ready_streak) ⊎ (b.ready ≡ [])
          → take_loop (suc fuel) b ≡ taken (message m) (popped b ms)
      loops (inl due) = loop-overdue fuel b m (popped b ms) (overdue b due ∙ pop-cons b m ms e)
      loops (inr f) = elim (Bool-cases (leb ready_burst b.ready_streak)) [
        | inl due ↦
            loop-overdue fuel b m (popped b ms) (overdue b (ground arith) ∙ pop-cons b m ms e)
        | inr early ↦
            loop-message fuel b m (popped b ms) (not_overdue b (ground arith)) (ready-nil b f)
              (pop-cons b m ms e)
      ]

  ready-Fits :
      (fuel : ℕ) (b : Mailbox M) (t : TaskId) (ts : List TaskId)
      → b.ready ≡ t ∷ ts
      → (b.queue ≡ []) ⊎ (b.ready_streak < ready_burst)
      → Fits b (take_loop (suc fuel) b)
  unfolding woken
  ready-Fits fuel b t ts f turn =
      let fits : Fits b (taken (ready_task t) (woken b ts)) =
        (f, refl, refl, elim turn [ inl e ↦ inr e | inr k ↦ inl k ]) in
      subst (Fits b)
        (sym (loop-ready fuel b t (woken b ts) (no_overdue b turn) (ready-cons b t ts f))) fits

  -- A mailbox with work gives it in the first round.
  pub work-Fits :
      (fuel : ℕ) (b : Mailbox M) (qs : List M) (rs : List TaskId)
      → b.queue ≡ qs
      → b.ready ≡ rs
      → (0 < length qs) ⊎ (0 < length rs)
      → Fits b (take_loop (suc fuel) b)
  work-Fits fuel b [] [] e f work = elim work [
    | inl k ↦ absurd (omega arith)
    | inr k ↦ absurd (omega arith)
  ]
  work-Fits fuel b (m ∷ ms) [] e f work = message-Fits fuel b m ms e (inr f)
  work-Fits fuel b [] (t ∷ ts) e f work = ready-Fits fuel b t ts f (inl e)
  work-Fits fuel b (m ∷ ms) (t ∷ ts) e f work = elim (Bool-cases (leb ready_burst b.ready_streak)) [
    | inl due ↦ message-Fits fuel b m ms e (inl (ground arith))
    | inr early ↦ ready-Fits fuel b t ts f (inr (ground arith))
  ]

  -- Without work, a running mailbox is idle after one round, and a notified one after two.
  rest-Fits :
      (b : Mailbox M)
      → b.queue ≡ []
      → b.ready ≡ []
      → (b.state ≡ running) ⊎ (b.state ≡ notified)
      → Fits b (take_work b)
  unfolding take_work settled settle
  rest-Fits b e f (inl s) =
      let g : settle b ≡ free (record b { state = idle; overload_threshold = overload_start }) =
        rw (settle, s) refl in
      subst (Fits b) (sym (loop-settle 1 b _ e f g)) (e, f, e, f, refl)
  rest-Fits b e f (inr s) =
      let g : settle b ≡ again (record b { state = running }) = rw (settle, s) refl in
      let two =
        loop-settle 1 b _ e f g
        ∙ loop-settle 0 (record b { state = running })
            (free (record b { state = idle; overload_threshold = overload_start })) e f refl in
      subst (Fits b) (sym two) (e, f, e, f, refl)

  -- A holder's `take_work` never panics and ends within two rounds. It gives the first task unless
  -- the burst of tasks is over and a message waits; else the first message; and `nothing`, with the
  -- state idle, only if both queues are empty. What it takes leaves its queue, and nothing else does.
  pub take_work_lem :
      (b : Mailbox M) → (b.state ≡ running) ⊎ (b.state ≡ notified) → Fits b (take_work b)
  unfolding take_work
  take_work_lem b held = go b.queue refl b.ready refl
    where
      go : (qs : List M) → b.queue ≡ qs → (rs : List TaskId) → b.ready ≡ rs → Fits b (take_work b)
      go [] e [] f = rest-Fits b e f held
      go (m ∷ ms) e rs f = work-Fits 1 b (m ∷ ms) rs e f (inl (omega arith))
      go [] e (t ∷ ts) f = work-Fits 1 b [] (t ∷ ts) e f (inr (omega arith))
