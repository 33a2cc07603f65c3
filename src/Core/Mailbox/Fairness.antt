-- ===== src/Core/Mailbox/Fairness.antt =====
-- Tasks that keep waking do not shut the messages of their service out.
use rskynet.Core.Tasks.{TaskId}
use rskynet.Base.{
  suc, ◌+◌, ◌-◌, ◌<◌, ◌≡◌, refl, sym, ap, ◌∙◌, arith, inl, inr, List, [], ◌∷◌, Option, some, Occurs,
  length, none, some_ne_none, true_ne_false,
}
use rskynet.Core.Mailbox.{
  Mailbox, Work, message, ready_task, Taken, taken, nothing, panicked, out_of_fuel, take_work,
  put_ready, ready_burst,
}
use rskynet.Core.Mailbox.Take.{Fits, work-Fits}

module _ {M : Type 0} where
  unfoldable wake_all : List TaskId → Mailbox M → Mailbox M
  unfolding put_ready
  wake_all [] b = b
  wake_all (t ∷ ts) b = wake_all ts (put_ready t b)

  wake_all-same :
      (ts : List TaskId) (b : Mailbox M)
      → ((wake_all ts b).queue ≡ b.queue) × ((wake_all ts b).ready_streak ≡ b.ready_streak)
  unfolding wake_all put_ready
  wake_all-same [] b = (refl, refl)
  wake_all-same (t ∷ ts) b = wake_all-same ts (put_ready t b)

  -- The work that a holder takes, if before each turn a list of tasks becomes ready.
  unfoldable pub serve : List (List TaskId) → Mailbox M → List (Work M)
  unfolding take_work wake_all
  serve [] b = []
  serve (woken ∷ rounds) b = elim (take_work (wake_all woken b)) [
    | taken w c ↦ w ∷ serve rounds c
    | nothing c ↦ []
    | panicked ↦ []
    | out_of_fuel ↦ []
  ]

  unfoldable after : List (List TaskId) → Taken M → List (Work M)
  unfolding serve
  after rounds r = elim r [
    | taken w c ↦ w ∷ serve rounds c
    | nothing c ↦ []
    | panicked ↦ []
    | out_of_fuel ↦ []
  ]

  first : List M → Option M
  first [] = none
  first (m ∷ ms) = some m

  -- One turn with a message waiting, by what it gives.
  serve-turn :
      (rounds : List (List TaskId)) (m : M) (ms : List M) (b : Mailbox M) (r : Taken M)
      → b.queue ≡ m ∷ ms
      → Fits b r
      → ((c : Mailbox M)
          → c.queue ≡ m ∷ ms
          → c.ready_streak ≡ b.ready_streak + 1
          → b.ready_streak < ready_burst
          → Occurs (message m) (serve rounds c))
      → Occurs (message m) (after rounds r)
  unfolding after first
  serve-turn rounds m ms b (taken (message x) c) e (q, r, t, u) next =
      (0, ap (λ (o : Option M). go o) (ap first (sym q ∙ e)))
    where
      go : Option M → Option (Work M)
      go none = none
      go (some x) = some (message x)
  serve-turn rounds m ms b (taken (ready_task t) c) e (r, q, s, turn) next = elim turn [
    | inr none_left ↦ absurd (some_ne_none (sym (ap first e) ∙ ap first none_left))
    | inl early ↦ let found = next c (q ∙ e) (omega arith) early in (suc found.0, found.1)
  ]
  serve-turn rounds m ms b (nothing c) e (q, r, t, u, v) next =
      absurd (some_ne_none (sym (ap first e) ∙ ap first q))
  serve-turn rounds m ms b panicked e f next = absurd (true_ne_false f)
  serve-turn rounds m ms b out_of_fuel e f next = absurd (true_ne_false f)

  -- Whatever tasks wake before each turn, the first message is among the next 65 takes, and sooner
  -- by the length of the burst that has already run.
  pub messages_are_served :
      (rounds : List (List TaskId)) (b : Mailbox M) (m : M) (ms : List M)
      → b.queue ≡ m ∷ ms
      → ready_burst - b.ready_streak < length rounds
      → Occurs (message m) (serve rounds b)
  unfolding serve after take_work
  messages_are_served [] b m ms e k = absurd (omega arith)
  messages_are_served (woken ∷ rounds) b m ms e k =
      let (same, streak) = wake_all-same woken b in
      let u : Mailbox M = wake_all woken b in
      serve-turn rounds m ms u (take_work u) (same ∙ e)
        (work-Fits 1 u (m ∷ ms) u.ready (same ∙ e) refl (inl (omega arith)))
        (λ c q s early. messages_are_served rounds c m ms q (omega arith))
