-- ===== src/Core/Session/History.antt =====
-- Any history of calls keeps a session table valid.
use rskynet.Base.{
  ℕ, suc, ◌+◌, ◌≤◌, ◌<◌, ◌≡◌, refl, Bool, List, [], ◌∷◌, Option, none, some, length, arith, u64_max,
}
use rskynet.Base.Maps.{lookup, length-erase-le, length-insert-le}
use rskynet.Core.Error.{Result}
use rskynet.Core.Session.{
  Slot, waiting, done, SessionTable, Call, allocs, completes, polls, abandons, clears, complete,
  poll, abandon, clear, step, run,
}
use rskynet.Core.Session.Valid.{
  IsValid, complete-IsValid, poll-IsValid, abandon-IsValid, clear-IsValid,
}
use rskynet.Core.Session.Alloc.{alloc_lem}

module _ {P W : Type 0} (will_wake : W → W → Bool) where
  -- A call adds one entry at most.
  abbrev Keeps : SessionTable P W → SessionTable P W → Type 0
  Keeps t u = IsValid u × (length u.slots ≤ suc (length t.slots))

  alloc-Keeps :
      (t : SessionTable P W)
      → IsValid t
      → length t.slots < u64_max
      → Keeps t (step will_wake t allocs)
  unfolding step
  alloc-Keeps t v small =
      let (s, u, e, a, w) = alloc_lem t v small in rw (e, step) (w, omega (arith, a.counted))

  grows-complete :
      (s : ℕ) (r : Result P) (t : SessionTable P W)
      → length (complete s r t).2.slots ≤ suc (length t.slots)
  unfolding complete
  grows-complete s r t = go (lookup s t.slots) refl
    where
      go :
          (o : Option (Slot P W))
          → lookup s t.slots ≡ o
          → length (complete s r t).2.slots ≤ suc (length t.slots)
      go none e = rw (e, complete) (omega arith)
      go (some (done q)) e = rw (e, complete) (omega arith)
      go (some (waiting w)) e = rw (e, complete) (length-insert-le s (done r) t.slots)

  grows-poll :
      (s : ℕ) (waker : W) (t : SessionTable P W)
      → length (poll will_wake s waker t).1.slots ≤ suc (length t.slots)
  unfolding poll
  grows-poll s waker t = go (lookup s t.slots) refl
    where
      go :
          (o : Option (Slot P W))
          → lookup s t.slots ≡ o
          → length (poll will_wake s waker t).1.slots ≤ suc (length t.slots)
      go none e = rw (e, poll) (omega arith)
      go (some (done q)) e = rw (e, poll) (omega (arith, length-erase-le s t.slots))
      go (some (waiting w)) e = rw (e, poll) (length-insert-le s (waiting _) t.slots)

  grows-abandon : (s : ℕ) (t : SessionTable P W) → length (abandon s t).slots ≤ suc (length t.slots)
  unfolding abandon
  grows-abandon s t = go (lookup s t.slots) refl
    where
      go :
          (o : Option (Slot P W))
          → lookup s t.slots ≡ o
          → length (abandon s t).slots ≤ suc (length t.slots)
      go none e = rw (e, abandon) (omega (arith, length-erase-le s t.slots))
      go (some w) e = rw (e, abandon) (omega (arith, length-erase-le s t.slots))

  step-Keeps :
      (t : SessionTable P W) (c : Call P W)
      → IsValid t
      → length t.slots < u64_max
      → Keeps t (step will_wake t c)
  unfolding step clear
  step-Keeps t allocs v small = alloc-Keeps t v small
  step-Keeps t (completes s r) v small = (complete-IsValid s r t v, grows-complete s r t)
  step-Keeps t (polls s waker) v small =
      (poll-IsValid will_wake s waker t v small, grows-poll s waker t)
  step-Keeps t (abandons s) v small = (abandon-IsValid s t v small, grows-abandon s t)
  step-Keeps t clears v small = (clear-IsValid t v, omega arith)

  -- After any history of fewer than 2^64 - 1 calls the table is valid: the number of pending calls
  -- that other threads read is the number of entries, no session has two, and none is numbered 0.
  pub run-IsValid :
      (t : SessionTable P W) (cs : List (Call P W))
      → IsValid t
      → length t.slots + length cs < u64_max
      → IsValid (run will_wake t cs)
  unfolding run
  run-IsValid t [] v small = v
  run-IsValid t (c ∷ cs) v small =
      let kept : Keeps t (step will_wake t c) = step-Keeps t c v (omega arith) in
      run-IsValid (step will_wake t c) cs kept.0 (omega arith)
