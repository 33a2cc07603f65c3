-- ===== src/Core/Session/Examples.antt =====
-- Tests of the session table, and its theorems at concrete tables.
use rskynet.Base.{ℕ, ◌≡◌, refl, Bool, true, false, List, [], ◌∷◌, none, some, arith, u64_max, ◌==◌}
use rskynet.Core.Error.{ok, err, canceled}
use rskynet.Core.Session.{
  waiting, SessionTable, ready, Call, allocs, completes, polls, abandons, clears, alloc, complete,
  poll, run,
}
use rskynet.Core.Session.Valid.{IsValid}
use rskynet.Core.Session.Alloc.{Allocated, alloc_lem}
use rskynet.Core.Session.Replies.{first_reply_wins}
use rskynet.Core.Session.History.{run-IsValid}

-- Payloads and wakers are numbers here, and a waker wakes its own task only.
abbrev same_task : ℕ → ℕ → Bool
same_task a b = a == b

abbrev Table : Type 0
Table = SessionTable ℕ ℕ

-- Session 1 is live when the counter stands at the end of its range.
abbrev wrapping : Table
wrapping = record { next = u64_max; slots = (1, waiting none) ∷ []; active = 1 }

abbrev registered : Table
registered = record { next = 2; slots = (1, waiting (some 7)) ∷ (2, waiting none) ∷ []; active = 2 }

wrapping-IsValid : IsValid wrapping
wrapping-IsValid = record {
  counted = refl;
  distinct = (refl, tt);
  no_zero = refl;
  in_word = omega arith;
}

registered-IsValid : IsValid registered
registered-IsValid = record {
  counted = refl;
  distinct = (refl, (refl, tt));
  no_zero = refl;
  in_word = omega arith;
}

-- A wrap skips 0 and the live session 1.
alloc_wraps :
    alloc wrapping
    ≡ some (2, record { next = 2; slots = (1, waiting none) ∷ (2, waiting none) ∷ []; active = 2 })
unfolding alloc
alloc_wraps = refl

alloc_lem_example :
    (s : ℕ) × (u : Table) × (alloc wrapping ≡ some (s, u)) × Allocated wrapping s u × IsValid u
alloc_lem_example = alloc_lem wrapping wrapping-IsValid (omega arith)

first_reply_wins_example :
    let (sent, woken, u) = complete 1 (ok 10) registered in
    let (answer, v) = poll same_task 1 7 u in
    (sent ≡ true)
    × (woken ≡ some 7)
    × (complete 1 (ok 11) u ≡ (false, none, u))
    × (answer ≡ ready (ok 10))
    × (complete 1 (ok 11) v ≡ (false, none, v))
    × (poll same_task 1 7 v ≡ (ready (err canceled), v))
first_reply_wins_example = first_reply_wins same_task 1 (ok 10) (ok 11) (some 7) 7 registered refl

abbrev history : List (Call ℕ ℕ)
history = allocs ∷ polls 2 9 ∷ completes 2 (ok 4) ∷ abandons 1 ∷ polls 2 9 ∷ clears ∷ []

run-IsValid_example : IsValid (run same_task wrapping history)
run-IsValid_example = run-IsValid same_task wrapping history wrapping-IsValid (omega arith)
