-- ===== src/Core/Bwos/Owner.antt =====
-- The owner's end of a block: last in, first out.
use rskynet.Base.{
  ℕ, ◌+◌, ◌-◌, ◌≤◌, ◌<◌, ◌≡◌, ◌≢◌, refl, arith, true, false, none, some, ltb, ◌==◌, if◌then◌else◌,
}
use rskynet.Core.Bwos.{Block, put, get, slot_of}

module _ {T : Type 0} where
  filled : T → Block T → Block T
  filled v b = record b { ring = λ i. if i == b.tail then some v else b.ring i; tail = b.tail + 1 }

  -- With the front slot not past the tail: a value that the owner puts into a block is the one it gets next; the get gives the slot back,
  -- and neither touches what thieves see. A put is refused exactly if the block is full.
  pub put-get :
      (v : T) (b : Block T)
      → slot_of b.head ≤ b.tail
      → (b.block_size ≤ b.tail → put v b ≡ none)
        × (b.tail < b.block_size
            → (c d : Block T) × (put v b ≡ some c)
              × (get c ≡ some (some v, d))
              × (d.tail ≡ b.tail)
              × ((i : ℕ) → i ≢ b.tail → d.ring i ≡ b.ring i)
              × (d.steal_tail ≡ b.steal_tail)
              × (d.head ≡ b.head)
              × (d.steal_count ≡ b.steal_count)
              × (d.block_size ≡ b.block_size))
  unfolding put get filled
  put-get v b low = (
    λ full. let no : ltb b.tail b.block_size ≡ false = ground arith in rw (put, no) refl,
    λ room.
        let yes : ltb b.tail b.block_size ≡ true = ground arith in
        let some_there : ((b.tail + 1) == 0) ≡ false = ground arith in
        let behind : (slot_of b.head == (b.tail + 1)) ≡ false = ground arith in
        let back : (b.tail + 1 - 1) ≡ b.tail = omega arith in
        let here : (b.tail == b.tail) ≡ true = ground arith in
        (
          filled v b,
          record (filled v b) { tail = b.tail },
          rw (put, yes) refl,
          rw (get, some_there, behind, back, here) refl,
          refl,
          (λ i ne. let off : (i == b.tail) ≡ false = ground arith in rw off refl),
          refl,
          refl,
          refl,
          refl,
        ),
  )
