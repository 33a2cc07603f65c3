-- ===== src/Core/Session/Alloc.antt =====
-- `alloc` always gives a session, and one that nobody uses.
use rskynet.Base.{
  ℕ, zero, suc, ◌+◌, ◌%◌, ◌≤◌, ◌<◌, ◌≡◌, ◌≢◌, refl, ◌∙◌, ap, sym, inl, inr, false, List, [], ◌∷◌,
  none, some, length, arith, u64_max, Option-cases, subst, some_inj,
}
use rskynet.Base.Maps.{lookup, lookup-insert, length-insert_absent}
use rskynet.Base.Pigeonhole.{contains, free_candidate}
use rskynet.Core.Session.{waiting, SessionTable, bump_next, claim, alloc_loop, alloc}
use rskynet.Core.Session.Valid.{IsValid, alloc_loop-IsValid}

-- The session that round `i` of the loop tries.
candidate : ℕ → ℕ → ℕ
candidate next i = (next + i) % u64_max + 1

candidate_zero : (next : ℕ) → next ≤ u64_max → candidate next 0 ≡ bump_next next
unfolding candidate
candidate_zero next h = ground arith

candidate-suc :
    (next i : ℕ) → next ≤ u64_max → candidate (bump_next next) i ≡ candidate next (suc i)
unfolding candidate
candidate-suc next i h = ground arith

candidate-injective :
    (next i j n : ℕ) → n ≤ u64_max → i < n → j < n → i < j → candidate next i ≢ candidate next j
unfolding candidate
candidate-injective next i j n hn hi hj lt = omega arith

keys : {V : Type 0} → List (ℕ × V) → List ℕ
keys [] = []
keys ((k, v) ∷ m) = k ∷ keys m

length-keys : {V : Type 0} (m : List (ℕ × V)) → length (keys m) ≡ length m
unfolding keys
length-keys [] = refl
length-keys ((k, v) ∷ m) = ap suc (length-keys m)

lookup-not_key :
    {V : Type 0} (k : ℕ) (m : List (ℕ × V)) → contains k (keys m) ≡ false → lookup k m ≡ none
unfolding keys
lookup-not_key k [] h = refl
lookup-not_key k ((j, v) ∷ m) h = ground (arith, lookup-not_key k m)

module _ {P W : Type 0} where
  -- The loop ends in the first round whose session is free, at the latest.
  alloc_loop-returns :
      (i fuel : ℕ) (t : SessionTable P W)
      → t.next ≤ u64_max
      → i < fuel
      → lookup (candidate t.next i) t.slots ≡ none
      → (s : ℕ) × (u : SessionTable P W) × (alloc_loop fuel t ≡ some (s, u))
  unfolding alloc_loop
  alloc_loop-returns i zero t h lt free = absurd (omega arith)
  alloc_loop-returns zero (suc fuel) t h lt free = (
    bump_next t.next,
    claim (bump_next t.next) t,
    rw (subst (λ s. lookup s t.slots ≡ none) (candidate_zero t.next h) free, alloc_loop),
  )
  alloc_loop-returns (suc i) (suc fuel) t h lt free =
      elim (Option-cases (lookup (bump_next t.next) t.slots)) [
        | inl absent ↦ (bump_next t.next, claim (bump_next t.next) t, rw (absent, alloc_loop))
        | inr (w, there) ↦
            let (s, u, e) =
              alloc_loop-returns i fuel (record t { next = bump_next t.next }) (ground arith)
                (omega arith)
                (subst (λ s. lookup s t.slots ≡ none) (sym (candidate-suc t.next i h)) free) in
            (s, u, rw (there, alloc_loop) e)
      ]

  -- `alloc` returns whenever fewer than 2^64 - 1 calls wait: the fuel is enough.
  pub alloc_returns :
      (t : SessionTable P W)
      → IsValid t
      → length t.slots < u64_max
      → (s : ℕ) × (u : SessionTable P W) × (alloc t ≡ some (s, u))
  unfolding alloc
  alloc_returns t v small =
      let (i, lt, free) =
        free_candidate (candidate t.next) (suc (length t.slots)) (keys t.slots)
          (λ i j hi hj. candidate-injective t.next i j (suc (length t.slots)) (omega arith) hi hj)
          (omega (arith, length-keys t.slots)) in
      alloc_loop-returns i (suc (length t.slots)) t v.in_word lt
        (lookup-not_key (candidate t.next i) t.slots free)

-- What a successful `alloc` did.
pub record Allocated {P W : Type 0} (t : SessionTable P W) (s : ℕ) (u : SessionTable P W)
    : Type 0 where
  pub was_free : lookup s t.slots ≡ none
  pub waits : lookup s u.slots ≡ some (waiting none)
  pub others : (k : ℕ) → s ≢ k → lookup k u.slots ≡ lookup k t.slots
  pub counted : length u.slots ≡ suc (length t.slots)
  pub positive : 1 ≤ s

module _ {P W : Type 0} where
  claim-Allocated :
      (s : ℕ) (t : SessionTable P W) → 1 ≤ s → lookup s t.slots ≡ none → Allocated t s (claim s t)
  claim-Allocated s t pos absent = record {
    was_free = absent;
    waits = lookup-insert s s (waiting none) t.slots ∙ ground arith;
    others = λ k ne. lookup-insert s k (waiting none) t.slots ∙ ground arith;
    counted = length-insert_absent s (waiting none) t.slots absent;
    positive = pos;
  }

  alloc_loop-Allocated :
      (fuel : ℕ) (t : SessionTable P W) (s : ℕ) (u : SessionTable P W)
      → alloc_loop fuel t ≡ some (s, u)
      → Allocated t s u
  unfolding alloc_loop
  alloc_loop-Allocated zero t s u e = cc
  alloc_loop-Allocated (suc fuel) t s u e = elim (Option-cases (lookup session t.slots)) [
    | inl absent ↦
        subst (λ (p : ℕ × SessionTable P W). Allocated t p.0 p.1)
          (some_inj (rw (absent, alloc_loop) at e))
          (claim-Allocated session t (ground arith) absent)
    | inr (w, there) ↦
        let r =
          alloc_loop-Allocated fuel (record t { next = session }) s u
            (rw (there, alloc_loop) at e) in
        record {
          was_free = r.was_free;
          waits = r.waits;
          others = r.others;
          counted = r.counted;
          positive = r.positive;
        }
  ]
    where
      session : ℕ
      session = bump_next t.next

  -- `alloc` is total, on every valid table with fewer than 2^64 - 1 entries: it gives a session
  -- other than 0 that had no entry, leaves it waiting with no waker and every other entry as it
  -- was, counts one entry more, and keeps the table valid.
  pub alloc_lem :
      (t : SessionTable P W)
      → IsValid t
      → length t.slots < u64_max
      → (s : ℕ) × (u : SessionTable P W) × (alloc t ≡ some (s, u)) × Allocated t s u × IsValid u
  unfolding alloc
  alloc_lem t v small =
      let (s, u, e) = alloc_returns t v small in
      (
        s,
        u,
        e,
        alloc_loop-Allocated (suc (length t.slots)) t s u e,
        alloc_loop-IsValid (suc (length t.slots)) t s u v small e,
      )

  -- As long as the counter has not wrapped, numbers are never given twice: with every entry at or
  -- below the counter, the session is the counter's successor.
  pub alloc_in_order :
      (t : SessionTable P W)
      → t.next < u64_max
      → ((k : ℕ) → t.next < k → lookup k t.slots ≡ none)
      → alloc t ≡ some (suc t.next, claim (suc t.next) t)
  unfolding alloc alloc_loop
  alloc_in_order t small above =
      let e : bump_next t.next ≡ suc t.next = ground arith in
      let free : lookup (bump_next t.next) t.slots ≡ none =
        subst (λ s. lookup s t.slots ≡ none) (sym e) (above (suc t.next) (omega arith)) in
      rw (free, alloc_loop) (ap (λ s. some (s, claim s t)) e)
