-- ===== src/Core/Session.antt =====
-- crates/rskynet-core/src/session.rs: the table of a service's calls that wait for a reply. A
-- method returns the new table beside its result; the waker that a method wakes is part of the
-- result. `active` is read by other threads only, so its atomic operations are plain ones here.
-- Wakers and `Waker::will_wake` are the standard library's: a type and a test, the parameters.
pub mod Valid
pub mod Alloc
pub mod Replies
pub mod History
mod Examples
use rskynet.Base.{
  ℕ, zero, suc, ◌+◌, Bool, true, false, List, [], ◌∷◌, Option, none, some, ◌==◌, if◌then◌else◌,
  length, wrapping_add, wrapping_sub,
}
use rskynet.Base.Maps.{lookup, insert, erase}
use rskynet.Core.Error.{Error, canceled, Result, ok, err}

pub data Slot (P W : Type 0) : Type 0 where
  waiting : Option W → Slot P W
  done : Result P → Slot P W

-- `SessionTable`, with the fields of its `Inner`.
pub record SessionTable (P W : Type 0) : Type 0 where
  pub next : ℕ
  pub slots : List (ℕ × Slot P W)
  pub active : ℕ

-- `std::task::Poll`
pub data Poll (A : Type 0) : Type 0 where
  pending : Poll A
  ready : A → Poll A

-- The number after `next`: 0 is skipped when the counter wraps.
abbrev pub bump_next : ℕ → ℕ
bump_next next = let n = wrapping_add next 1 in if n == 0 then 1 else n

-- The new waker takes the slot unless the old one would wake the same task.
abbrev pub keep_waker : {W : Type 0} → (W → W → Bool) → Option W → W → Option W
keep_waker will_wake none waker = some waker
keep_waker will_wake (some old) waker = if will_wake old waker then some old else some waker

module _ {P W : Type 0} where
  unfoldable pub new : SessionTable P W
  new = record { next = 0; slots = []; active = 0 }

  -- A vacant entry is taken.
  abbrev pub claim : ℕ → SessionTable P W → SessionTable P W
  claim session t = record {
    next = session;
    slots = insert session (waiting none) t.slots;
    active = wrapping_add t.active 1;
  }

  -- The loop of `alloc`; `none` means that the fuel ran out.
  unfoldable pub alloc_loop : ℕ → SessionTable P W → Option (ℕ × SessionTable P W)
  alloc_loop zero t = none
  alloc_loop (suc fuel) t =
      let session = bump_next t.next in
      elim (lookup session t.slots) [
        | none ↦ some (session, claim session t)
        | some _ ↦ alloc_loop fuel (record t { next = session })
      ]

  -- One round more than there are entries is always enough.
  unfoldable pub alloc : SessionTable P W → Option (ℕ × SessionTable P W)
  unfolding alloc_loop
  alloc t = alloc_loop (suc (length t.slots)) t

  -- The flag is the method's result, the option the waker that it wakes.
  unfoldable pub complete : ℕ → Result P → SessionTable P W → Bool × Option W × SessionTable P W
  complete session result t = elim (lookup session t.slots) [
    | none ↦ (false, none, t)
    | some (done _) ↦ (false, none, t)
    | some (waiting w) ↦ (true, w, record t { slots = insert session (done result) t.slots })
  ]

  unfoldable pub poll :
      (W → W → Bool) → ℕ → W → SessionTable P W → Poll (Result P) × SessionTable P W
  poll will_wake session waker t = elim (lookup session t.slots) [
    | none ↦ (ready (err canceled), t)
    | some (waiting old) ↦ (
      pending,
      record t { slots = insert session (waiting (keep_waker will_wake old waker)) t.slots },
    )
    | some (done result) ↦
        (ready result, record t { slots = erase session t.slots; active = wrapping_sub t.active 1 })
  ]

  unfoldable pub abandon : ℕ → SessionTable P W → SessionTable P W
  abandon session t = elim (lookup session t.slots) [
    | none ↦ record t { slots = erase session t.slots }
    | some _ ↦ record t { slots = erase session t.slots; active = wrapping_sub t.active 1 }
  ]

  unfoldable pub clear : SessionTable P W → SessionTable P W
  clear t = record t { slots = []; active = 0 }

  unfoldable pub pending_calls : SessionTable P W → ℕ
  pending_calls t = t.active

-- The table's methods as calls, and a history of them: what each call leaves behind.
pub data Call (P W : Type 0) : Type 0 where
  allocs : Call P W
  completes : ℕ → Result P → Call P W
  polls : ℕ → W → Call P W
  abandons : ℕ → Call P W
  clears : Call P W

module _ {P W : Type 0} (will_wake : W → W → Bool) where
  unfoldable pub step : SessionTable P W → Call P W → SessionTable P W
  step t allocs = elim (alloc t) [ none ↦ t | some (s, u) ↦ u ]
  step t (completes s r) = (complete s r t).2
  step t (polls s waker) = (poll will_wake s waker t).1
  step t (abandons s) = abandon s t
  step t clears = clear t

  unfoldable pub run : SessionTable P W → List (Call P W) → SessionTable P W
  run t [] = t
  run t (c ∷ cs) = run (step t c) cs
