-- ===== src/Core/Bwos/Lifo.antt =====
-- What the owner pushes is what it pops next, and what is below it stays.
use rskynet.Base.{
  ℕ, suc, ◌≤◌, ◌<◌, ◌≡◌, ◌≢◌, refl, ap, ◌∙◌, arith, Bool, true, false, Bool-cases, some, ltb, ◌==◌,
  if◌then◌else◌, inl, inr, Option,
}
use rskynet.Core.Bwos.{Block, slot_of, put, get}
use rskynet.Core.Bwos.Owner.{put-get}
use rskynet.Core.Bwos.Queue.{
  LifoQueue, Ends, ends, panics, spins, out_of_fuel, and_then, Pushed, local, granted, no_room,
  place, set_block, advance_put_index, push_loop, push_back, pop_loop, pop_back,
}
use rskynet.Core.Bwos.Advance.{
  AllSized, own, HasRoom, IsRefused, IsBusy, Entered, Advanced, advance_put_index-Advanced,
}

module _ {T : Type 0} where
  -- The front slot of the owner's block is not past its tail.
  abbrev pub IsOpen : LifoQueue T → Type 0
  IsOpen q = slot_of (own q).head ≤ (own q).tail

  -- The queues hold the same: they differ at most in the first slot of the owner's block that is not
  -- in use.
  pub record IsSame (q p : LifoQueue T) : Type 0 where
    pub last : p.last_block ≡ q.last_block
    pub start : p.start_block ≡ q.start_block
    pub shift : p.block_shift ≡ q.block_shift
    pub others : (i : ℕ) → i ≢ place q q.last_block → p.blocks i ≡ q.blocks i
    pub tail : (own p).tail ≡ (own q).tail
    pub head : (own p).head ≡ (own q).head
    pub steal_tail : (own p).steal_tail ≡ (own q).steal_tail
    pub steal_count : (own p).steal_count ≡ (own q).steal_count
    pub block_size : (own p).block_size ≡ (own q).block_size
    pub ring : (i : ℕ) → i ≢ (own q).tail → (own p).ring i ≡ (own q).ring i

  -- A pop of `r` gives the value, and leaves what `q` holds.
  abbrev pub Pops : T → LifoQueue T → LifoQueue T → Type 0
  Pops v q r = (p : LifoQueue T) × (pop_back r ≡ ends (some v, p)) × IsSame q p

  pop_here :
      (fuel : ℕ) (q : LifoQueue T) (r : Option T × Block T)
      → get (q.blocks (place q q.last_block)) ≡ some r
      → pop_loop (suc fuel) q ≡ ends (r.0, set_block (place q q.last_block) r.1 q)
  unfolding pop_loop
  pop_here fuel q r e = rw (pop_loop, e) refl

  -- A put into the owner's block with room, and the pop that undoes it.
  put_and_pop :
      (v : T) (q : LifoQueue T)
      → HasRoom (own q)
      → (c : Block T) × (put v (own q) ≡ some c) × Pops v q (set_block (place q q.last_block) c q)
  unfolding pop_back
  put_and_pop v q (low, room) =
      let (c, d, there, back, tail, ring, steal_tail, head, steal_count, block_size) =
        (put-get v (own q) low).1 room in
      let here : (place q q.last_block == place q q.last_block) ≡ true = ground arith in
      let r = set_block (place q q.last_block) c q in
      let p = set_block (place q q.last_block) d r in
      let mine : own r ≡ c = rw here refl in
      let left : own p ≡ d = rw here refl in
      (
        c,
        there,
        (
          p,
          pop_here q.last_block r (some v, d) (ap get mine ∙ back),
          record {
            last = refl;
            start = refl;
            shift = refl;
            others =
                λ i ne. let off : (i == place q q.last_block) ≡ false = ground arith in rw off refl;
            tail = ap (λ (b : Block T). b.tail) left ∙ tail;
            head = ap (λ (b : Block T). b.head) left ∙ head;
            steal_tail = ap (λ (b : Block T). b.steal_tail) left ∙ steal_tail;
            steal_count = ap (λ (b : Block T). b.steal_count) left ∙ steal_count;
            block_size = ap (λ (b : Block T). b.block_size) left ∙ block_size;
            ring = λ i ne. ap (λ (b : Block T). b.ring i) left ∙ ring i ne;
          },
        ),
      )

  -- What a push ends with, and when: with room in the owner's block, the value is on top of what `q`
  -- holds; with none, it is on top of the queue whose owner went into the next block; or that block
  -- is refused, the numbers are at their end, or thieves are still at work in it.
  abbrev pub Keeps : T → LifoQueue T → Ends (Pushed × LifoQueue T) → Type 0
  Keeps v q (ends (local, r)) = ((own q).tail < (own q).block_size) × Pops v q r
  Keeps v q (ends (granted, r)) =
      ((own q).block_size ≤ (own q).tail) × ((e : LifoQueue T) × Entered q e × Pops v e r)
  Keeps v q (ends (no_room, r)) = ((own q).block_size ≤ (own q).tail) × (r ≡ q) × IsRefused q
  Keeps v q panics = ((own q).block_size ≤ (own q).tail) × Advanced q panics
  Keeps v q spins = ((own q).block_size ≤ (own q).tail) × IsBusy q
  Keeps v q out_of_fuel = ⊥

  -- The second round of a push, after the way into the next block.
  Advanced-Keeps :
      (v : T) (q : LifoQueue T) (o : Ends (Bool × LifoQueue T))
      → (own q).block_size ≤ (own q).tail
      → Advanced q o
      → Keeps v q (and_then o (λ r. if r.0 then push_loop 1 v granted r.1 else ends (no_room, r.1)))
  unfolding push_loop
  Advanced-Keeps v q (ends (true, e)) full entered =
      let (c, there, pops) = put_and_pop v e entered.room in
      rw (push_loop, there) (full, (e, entered, pops))
  Advanced-Keeps v q (ends (false, e)) full (same, refused) = (full, same, refused)
  Advanced-Keeps v q panics full end = (full, end)
  Advanced-Keeps v q spins full busy = (full, busy)
  Advanced-Keeps v q out_of_fuel full none_there = absurd none_there

  -- In a queue of blocks with slots, where the front slot of the owner's block is not past its tail, a
  -- push ends within its fuel. If the owner's block has room, the push is local, and the pop after it
  -- gives the value and leaves what the queue held before the push. If it is full, and only
  -- then, one of these: the owner left his block to the thieves and went into the next one, which
  -- is empty, and the pop gives the value and leaves that; there is no room and nothing
  -- changes, as the next block is the owner's own or not free; the numbers of the blocks are at their
  -- end, a panic; or thieves are still at work in the next block, for which the push spins.
  pub push_back-pop_back :
      (v : T) (q : LifoQueue T) → IsOpen q → AllSized q → Keeps v q (push_back v q)
  unfolding push_back push_loop
  push_back-pop_back v q low all = elim (Bool-cases (ltb (own q).tail (own q).block_size)) [
    | inl room ↦
        let fits : (own q).tail < (own q).block_size = ground arith in
        let (c, there, pops) = put_and_pop v q (low, fits) in
        rw (push_back, push_loop, there) (fits, pops)
    | inr full ↦
        let over : (own q).block_size ≤ (own q).tail = ground arith in
        let refused = (put-get v (own q) low).0 over in
        rw (push_back, push_loop, refused)
          (Advanced-Keeps v q (advance_put_index q.last_block q) over
            (advance_put_index-Advanced q all))
  ]
