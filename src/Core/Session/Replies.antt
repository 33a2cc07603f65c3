-- ===== src/Core/Session/Replies.antt =====
-- A reply reaches the task that waits for it, once, and no other.
use rskynet.Base.{
  ℕ, ◌≡◌, ◌≢◌, refl, ◌∙◌, Bool, true, false, List, Option, none, some, arith, ap, wrapping_sub,
}
use rskynet.Base.Maps.{lookup, insert, erase, lookup-insert, lookup-erase}
use rskynet.Core.Error.{canceled, Result, err}
use rskynet.Core.Session.{Slot, waiting, done, SessionTable, ready, complete, poll, abandon}

module _ {P W : Type 0} where
  -- What `complete` does in each case of the entry.
  pub complete-waiting :
      (s : ℕ) (r : Result P) (w : Option W) (t : SessionTable P W)
      → lookup s t.slots ≡ some (waiting w)
      → complete s r t ≡ (true, w, record t { slots = insert s (done r) t.slots })
  unfolding complete
  complete-waiting s r w t e = rw (e, complete)

  pub complete_done :
      (s : ℕ) (r q : Result P) (t : SessionTable P W)
      → lookup s t.slots ≡ some (done q)
      → complete s r t ≡ (false, none, t)
  unfolding complete
  complete_done s r q t e = rw (e, complete)

  pub complete_absent :
      (s : ℕ) (r : Result P) (t : SessionTable P W)
      → lookup s t.slots ≡ none
      → complete s r t ≡ (false, none, t)
  unfolding complete
  complete_absent s r t e = rw (e, complete)

  pub poll_done :
      (will_wake : W → W → Bool) (s : ℕ) (r : Result P) (waker : W) (t : SessionTable P W)
      → lookup s t.slots ≡ some (done r)
      → poll will_wake s waker t
        ≡ (ready r, record t { slots = erase s t.slots; active = wrapping_sub t.active 1 })
  unfolding poll
  poll_done will_wake s r waker t e = rw (e, poll)

  pub poll_absent :
      (will_wake : W → W → Bool) (s : ℕ) (waker : W) (t : SessionTable P W)
      → lookup s t.slots ≡ none
      → poll will_wake s waker t ≡ (ready (err canceled), t)
  unfolding poll
  poll_absent will_wake s waker t e = rw (e, poll)

  lookup-insert_self :
      (s : ℕ) (v : Slot P W) (m : List (ℕ × Slot P W)) → lookup s (insert s v m) ≡ some v
  lookup-insert_self s v m = lookup-insert s s v m ∙ ground arith

  slots-abandon : (s : ℕ) (t : SessionTable P W) → (abandon s t).slots ≡ erase s t.slots
  unfolding abandon
  slots-abandon s t = go (lookup s t.slots) refl
    where
      go : (o : Option (Slot P W)) → lookup s t.slots ≡ o → (abandon s t).slots ≡ erase s t.slots
      go none e = rw (e, abandon)
      go (some w) e = rw (e, abandon)

  lookup-erase_self : (s : ℕ) (m : List (ℕ × Slot P W)) → lookup s (erase s m) ≡ none
  lookup-erase_self s m = lookup-erase s s m ∙ ground arith

  -- The waiting task gets the first reply: `complete` wakes the registered waker, a second reply is
  -- refused and changes nothing, the next poll takes the first reply, and after it the entry is
  -- gone, so that later replies are refused and a further poll finds the call cancelled.
  pub first_reply_wins :
      (will_wake : W → W → Bool) (s : ℕ) (r q : Result P) (w : Option W) (waker : W)
      (t : SessionTable P W)
      → lookup s t.slots ≡ some (waiting w)
      → let (sent, woken, u) = complete s r t in
        let (answer, v) = poll will_wake s waker u in
        (sent ≡ true)
        × (woken ≡ w)
        × (complete s q u ≡ (false, none, u))
        × (answer ≡ ready r)
        × (complete s q v ≡ (false, none, v))
        × (poll will_wake s waker v ≡ (ready (err canceled), v))
  first_reply_wins will_wake s r q w waker t e = rw (complete-waiting s r w t e) (
      rw (poll_done will_wake s r waker answered (lookup-insert_self s (done r) t.slots)) (
        refl,
        refl,
        complete_done s q r answered (lookup-insert_self s (done r) t.slots),
        refl,
        complete_absent s q taken gone,
        poll_absent will_wake s waker taken gone,
      ))
    where
      answered : SessionTable P W
      answered = record t { slots = insert s (done r) t.slots }

      taken : SessionTable P W
      taken = record answered { slots = erase s answered.slots; active = wrapping_sub t.active 1 }

      gone : lookup s taken.slots ≡ none
      gone = lookup-erase_self s answered.slots

  -- A caller that gave up is forgotten: a reply that comes later is refused, a poll finds the call
  -- cancelled, and every other entry stands as before.
  pub abandon_lem :
      (will_wake : W → W → Bool) (s : ℕ) (r : Result P) (waker : W) (t : SessionTable P W)
      → let u = abandon s t in
        (complete s r u ≡ (false, none, u))
        × (poll will_wake s waker u ≡ (ready (err canceled), u))
        × ((k : ℕ) → s ≢ k → lookup k u.slots ≡ lookup k t.slots)
  abandon_lem will_wake s r waker t = (
    complete_absent s r (abandon s t) gone,
    poll_absent will_wake s waker (abandon s t) gone,
    λ k ne. ap (lookup k) (slots-abandon s t) ∙ lookup-erase s k t.slots ∙ ground arith,
  )
    where
      gone : lookup s (abandon s t).slots ≡ none
      gone = ap (lookup s) (slots-abandon s t) ∙ lookup-erase_self s t.slots

  -- Completing or polling one session leaves the entries of all others alone.
  pub calls_are_independent :
      (will_wake : W → W → Bool) (s k : ℕ) (r : Result P) (waker : W) (t : SessionTable P W)
      → s ≢ k
      → (lookup k (complete s r t).2.slots ≡ lookup k t.slots)
        × (lookup k (poll will_wake s waker t).1.slots ≡ lookup k t.slots)
  unfolding complete poll
  calls_are_independent will_wake s k r waker t ne = go (lookup s t.slots) refl
    where
      same : (v : Slot P W) → lookup k (insert s v t.slots) ≡ lookup k t.slots
      same v = lookup-insert s k v t.slots ∙ ground arith

      dropped : lookup k (erase s t.slots) ≡ lookup k t.slots
      dropped = lookup-erase s k t.slots ∙ ground arith

      go :
          (o : Option (Slot P W))
          → lookup s t.slots ≡ o
          → (lookup k (complete s r t).2.slots ≡ lookup k t.slots)
            × (lookup k (poll will_wake s waker t).1.slots ≡ lookup k t.slots)
      go none e = rw (e, complete, poll) (refl, refl)
      go (some (done q)) e = rw (e, complete, poll) (refl, dropped)
      go (some (waiting w)) e = rw (e, complete, poll) (same (done r), same (waiting _))
