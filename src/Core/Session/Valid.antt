-- ===== src/Core/Session/Valid.antt =====
-- What holds of a session table after any sequence of its methods.
use rskynet.Base.{
  ℕ, zero, suc, ◌≤◌, ◌<◌, ◌≡◌, refl, ◌∙◌, ap, inl, inr, Bool, Option, none, some, length, arith,
  u64_max, some_inj, Option-cases, sym, subst, wrapping_add, wrapping_sub,
}
use rskynet.Base.Maps.{
  lookup, insert, erase, IsDistinct, insert-IsDistinct, erase-IsDistinct, length-insert_absent,
  length-insert_present, length-erase_present, lookup-insert, lookup-erase, erase_absent,
}
use rskynet.Core.Error.{Result}
use rskynet.Core.Session.{
  Slot, waiting, done, SessionTable, bump_next, new, alloc_loop, complete, poll, abandon, clear,
}

-- `active` counts the entries, of which no two have one key and none has the key 0.
pub record IsValid {P W : Type 0} (t : SessionTable P W) : Type 0 where
  pub counted : t.active ≡ length t.slots
  pub distinct : IsDistinct t.slots
  pub no_zero : lookup 0 t.slots ≡ none
  pub in_word : t.next ≤ u64_max

bump_next_pos : (n : ℕ) → 1 ≤ bump_next n
bump_next_pos n = ground arith

bump_next-le : (n : ℕ) → bump_next n ≤ u64_max
bump_next-le n = ground arith

module _ {P W : Type 0} where
  pub new-IsValid : IsValid (new {P = P} {W = W})
  unfolding new
  new-IsValid = record { counted = refl; distinct = tt; no_zero = refl; in_word = omega arith }

  -- The three ways in which a method changes the entries.
  fresh-IsValid :
      (s : ℕ) (v : Slot P W) (t : SessionTable P W)
      → IsValid t
      → length t.slots < u64_max
      → 1 ≤ s
      → s ≤ u64_max
      → lookup s t.slots ≡ none
      → IsValid (record { next = s; slots = insert s v t.slots; active = wrapping_add t.active 1 })
  fresh-IsValid s v t h small pos le absent = record {
    counted = omega (arith, h.counted, length-insert_absent s v t.slots absent);
    distinct = insert-IsDistinct s v t.slots h.distinct;
    no_zero = lookup-insert s 0 v t.slots ∙ ground (arith, h.no_zero);
    in_word = le;
  }

  replace-IsValid :
      (s : ℕ) (v w : Slot P W) (t : SessionTable P W)
      → IsValid t
      → lookup s t.slots ≡ some w
      → IsValid (record t { slots = insert s v t.slots })
  replace-IsValid s v w t h there = record {
    counted = h.counted ∙ sym (length-insert_present s v w t.slots there);
    distinct = insert-IsDistinct s v t.slots h.distinct;
    no_zero = lookup-insert s 0 v t.slots ∙ ground (arith, h.no_zero, there);
    in_word = h.in_word;
  }

  remove-IsValid :
      (s : ℕ) (w : Slot P W) (t : SessionTable P W)
      → IsValid t
      → length t.slots < u64_max
      → lookup s t.slots ≡ some w
      → IsValid (record t { slots = erase s t.slots; active = wrapping_sub t.active 1 })
  remove-IsValid s w t h small there = record {
    counted = omega (arith, h.counted, length-erase_present s w t.slots h.distinct there);
    distinct = erase-IsDistinct s t.slots h.distinct;
    no_zero = lookup-erase s 0 t.slots ∙ ground (arith, h.no_zero);
    in_word = h.in_word;
  }

  pub alloc_loop-IsValid :
      (fuel : ℕ) (t : SessionTable P W) (s : ℕ) (u : SessionTable P W)
      → IsValid t
      → length t.slots < u64_max
      → alloc_loop fuel t ≡ some (s, u)
      → IsValid u
  unfolding alloc_loop
  alloc_loop-IsValid zero t s u v small e = cc
  alloc_loop-IsValid (suc fuel) t s u v small e = elim (Option-cases (lookup session t.slots)) [
    | inl absent ↦
        subst IsValid
          (ap (λ (p : ℕ × SessionTable P W). p.1) (some_inj (rw (absent, alloc_loop) at e)))
          (fresh-IsValid session (waiting none) t v small (bump_next_pos t.next)
            (bump_next-le t.next) absent)
    | inr (w, there) ↦
        alloc_loop-IsValid fuel (record t { next = session }) s u
          (record {
            counted = v.counted;
            distinct = v.distinct;
            no_zero = v.no_zero;
            in_word = bump_next-le t.next;
          })
          small (rw (there, alloc_loop) at e)
  ]
    where
      session : ℕ
      session = bump_next t.next

  pub complete-IsValid :
      (s : ℕ) (r : Result P) (t : SessionTable P W) → IsValid t → IsValid (complete s r t).2
  unfolding complete
  complete-IsValid s r t v = go (lookup s t.slots) refl
    where
      go : (o : Option (Slot P W)) → lookup s t.slots ≡ o → IsValid (complete s r t).2
      go none e = rw (e, complete) v
      go (some (done q)) e = rw (e, complete) v
      go (some (waiting w)) e = rw (e, complete) (replace-IsValid s (done r) (waiting w) t v e)

  pub poll-IsValid :
      (will_wake : W → W → Bool) (s : ℕ) (waker : W) (t : SessionTable P W)
      → IsValid t
      → length t.slots < u64_max
      → IsValid (poll will_wake s waker t).1
  unfolding poll
  poll-IsValid will_wake s waker t v small = go (lookup s t.slots) refl
    where
      go : (o : Option (Slot P W)) → lookup s t.slots ≡ o → IsValid (poll will_wake s waker t).1
      go none e = rw (e, poll) v
      go (some (done q)) e = rw (e, poll) (remove-IsValid s (done q) t v small e)
      go (some (waiting w)) e = rw (e, poll) (replace-IsValid s _ (waiting w) t v e)

  pub abandon-IsValid :
      (s : ℕ) (t : SessionTable P W) → IsValid t → length t.slots < u64_max → IsValid (abandon s t)
  unfolding abandon
  abandon-IsValid s t v small = go (lookup s t.slots) refl
    where
      go : (o : Option (Slot P W)) → lookup s t.slots ≡ o → IsValid (abandon s t)
      go none e = rw (e, abandon, erase_absent s t.slots e) v
      go (some w) e = rw (e, abandon) (remove-IsValid s w t v small e)

  pub clear-IsValid : (t : SessionTable P W) → IsValid t → IsValid (clear t)
  unfolding clear
  clear-IsValid t v = record { counted = refl; distinct = tt; no_zero = refl; in_word = v.in_word }
