-- ===== src/Core/Bwos/Advance.antt =====
-- The owner's way into the next block, on each of its ends.
use rskynet.Base.{
  ℕ, ◌+◌, ◌≤◌, ◌<◌, ◌≡◌, ◌≢◌, refl, arith, Bool, true, false, Bool-cases, none, some, leb, ◌==◌,
  inl, inr, ◌⊎◌, shr, u64_mod,
}
use rskynet.Core.Bwos.{Block, pack, slot_of, grant, is_writable, reclaim, max_generation}
use rskynet.Core.Bwos.Queue.{
  LifoQueue, Ends, ends, panics, spins, out_of_fuel, place, next_sequence, enter, advance_put_index,
}

module _ {T : Type 0} where
  abbrev pub AllSized : LifoQueue T → Type 0
  AllSized q = (i : ℕ) → 0 < (q.blocks i).block_size

  -- The owner's block of a queue.
  abbrev pub own : LifoQueue T → Block T
  own q = q.blocks (place q q.last_block)

  -- The block has room, and its front slot is not past its tail.
  abbrev pub HasRoom : Block T → Type 0
  HasRoom b = (slot_of b.head ≤ b.tail) × (b.tail < b.block_size)

  -- There is no number after `n`: it does not fit in a word, or its generation not in 56 bits.
  abbrev pub AtEnd : LifoQueue T → ℕ → Type 0
  AtEnd q n = (u64_mod ≤ n + 1) ⊎ (max_generation < shr (n + 1) q.block_shift)

  -- The next block is the owner's own, or it is not free in the next generation.
  abbrev pub IsRefused : LifoQueue T → Type 0
  IsRefused q =
      (place q (q.last_block + 1) ≡ place q q.last_block)
      ⊎ (is_writable (shr (q.last_block + 1) q.block_shift) (q.blocks (place q (q.last_block + 1)))
          ≡ false)

  -- Thieves have not yet counted all that they claimed in the next block.
  abbrev pub IsBusy : LifoQueue T → Type 0
  IsBusy q = let b = q.blocks (place q (q.last_block + 1)) in b.steal_count ≢ slot_of b.head

  -- `e` is the queue whose owner left his block to the thieves and went into the next, an empty one.
  pub record Entered (q e : LifoQueue T) : Type 0 where
    pub last : e.last_block ≡ q.last_block + 1
    pub start :
        (e.start_block ≡ q.start_block)
        ⊎ ((place q (q.last_block + 1) ≡ place q q.start_block)
            × (e.start_block ≡ q.start_block + 1))
    pub shift : e.block_shift ≡ q.block_shift
    pub given : e.blocks (place q q.last_block) ≡ grant (own q)
    pub fresh : (own e).tail ≡ 0
    pub room : HasRoom (own e)
    pub others :
        (i : ℕ)
        → i ≢ place q q.last_block
        → i ≢ place q (q.last_block + 1)
        → e.blocks i ≡ q.blocks i

  -- What the way into the next block ends with, and when.
  abbrev pub Advanced : LifoQueue T → Ends (Bool × LifoQueue T) → Type 0
  Advanced q (ends (true, e)) = Entered q e
  Advanced q (ends (false, e)) = (e ≡ q) × IsRefused q
  Advanced q panics =
      AtEnd q q.last_block
      ⊎ ((place q (q.last_block + 1) ≡ place q q.start_block) × AtEnd q q.start_block)
  Advanced q spins = IsBusy q
  Advanced q out_of_fuel = ⊥

  next_sequence-cases :
      (q : LifoQueue T) (n : ℕ)
      → (next_sequence q n ≡ ends (n + 1)) ⊎ ((next_sequence q n ≡ panics) × AtEnd q n)
  unfolding next_sequence
  next_sequence-cases q n = elim (Bool-cases (leb u64_mod (n + 1))) [
    | inl long ↦ inr (rw long refl, inl (ground arith))
    | inr short ↦ elim (Bool-cases (leb (shr (n + 1) q.block_shift) max_generation)) [
      | inl fits ↦ inl (rw (short, fits) refl)
      | inr over ↦ inr (rw (short, over) refl, inr (ground arith))
    ]
  ]

  reclaim-cases :
      (generation : ℕ) (b : Block T)
      → 0 < b.block_size
      → ((reclaim generation b ≡ none) × (b.steal_count ≢ slot_of b.head))
        ⊎ ((c : Block T) × (reclaim generation b ≡ some c) × HasRoom c × (c.tail ≡ 0))
  unfolding reclaim
  reclaim-cases generation b sized = elim (Bool-cases (b.steal_count == slot_of b.head)) [
    | inl quiet ↦ inr (renewed, rw quiet refl, (omega arith, sized), refl)
    | inr busy ↦ inl (rw busy refl, ground arith)
  ]
    where
      renewed : Block T
      renewed = record b {
        head = pack generation;
        tail = 0;
        steal_tail = pack generation + b.block_size;
        steal_count = 0;
      }

  -- The way in once the thieves' start is settled.
  enter-Advanced :
      (q : LifoQueue T) (n : ℕ)
      → AllSized q
      → (place q (q.last_block + 1) == place q q.last_block) ≡ false
      → (n ≡ q.start_block)
        ⊎ ((place q (q.last_block + 1) ≡ place q q.start_block) × (n ≡ q.start_block + 1))
      → Advanced q (enter q.last_block (q.last_block + 1) (record q { start_block = n }))
  enter-Advanced q n sized apart start =
      elim (reclaim-cases (shr (q.last_block + 1) q.block_shift)
        (q.blocks (place q (q.last_block + 1))) (sized (place q (q.last_block + 1)))) [
          | inl (e, busy) ↦ rw (apart, e) busy
          | inr (c, e, room, zero_tail) ↦
              let here : (place q (q.last_block + 1) == place q (q.last_block + 1)) ≡ true =
                ground arith in
              let there : (place q q.last_block == place q (q.last_block + 1)) ≡ false =
                ground arith in
              let mine : (place q q.last_block == place q q.last_block) ≡ true = ground arith in
              rw (apart, e)
                (record {
                  last = refl;
                  start = start;
                  shift = refl;
                  given = rw (there, mine) refl;
                  fresh = rw here zero_tail;
                  room = rw here room;
                  others = λ i ne_own ne_next.
                      let off_own : (i == place q q.last_block) ≡ false = ground arith in
                      let off_next : (i == place q (q.last_block + 1)) ≡ false = ground arith in
                      rw (off_next, off_own) refl;
                })
        ]

  -- From a queue of blocks with slots, the way into the next block ends as described.
  pub advance_put_index-Advanced :
      (q : LifoQueue T) → AllSized q → Advanced q (advance_put_index q.last_block q)
  unfolding advance_put_index
  advance_put_index-Advanced q sized = elim (next_sequence-cases q q.last_block) [
    | inr (e, end) ↦ rw (advance_put_index, e) (inl end)
    | inl e ↦ elim (Bool-cases (place q (q.last_block + 1) == place q q.last_block)) [
      | inl full ↦ rw (advance_put_index, e, full) (refl, inl (ground arith))
      | inr apart ↦
          elim (Bool-cases (
            is_writable (shr (q.last_block + 1) q.block_shift)
              (q.blocks (place q (q.last_block + 1))))) [
                | inr taken ↦ rw (advance_put_index, e, apart, taken) (refl, inr taken)
                | inl free ↦
                    elim (Bool-cases (place q (q.last_block + 1) == place q q.start_block)) [
                      | inr off ↦
                          rw (advance_put_index, e, apart, free, off)
                            (enter-Advanced q q.start_block sized apart (inl refl))
                      | inl on ↦
                          let at_start : place q (q.last_block + 1) ≡ place q q.start_block =
                            ground arith in
                          elim (next_sequence-cases q q.start_block) [
                            | inr (f, end) ↦
                                rw (advance_put_index, e, apart, free, on, f) (inr (at_start, end))
                            | inl f ↦
                                rw (advance_put_index, e, apart, free, on, f)
                                  (enter-Advanced q (q.start_block + 1) sized apart
                                    (inr (at_start, refl)))
                          ]
                    ]
              ]
    ]
  ]
