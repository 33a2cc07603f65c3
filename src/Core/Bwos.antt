-- ===== src/Core/Bwos.antt =====
-- crates/rskynet-core/src/bwos.rs: a block of the work-stealing queue of a worker, slots that the owner
-- fills and empties at the tail and thieves empty at the front. It packs a generation and a
-- slot in one word of 64 bits. Each function is what its caller does undisturbed; a thief's
-- `steal` is two steps, between which others may change the block. `none` in a ring is a slot that
-- holds no initialised value. Slots and counts are at most the block size, which is below 256, so
-- `|` of a generation and a slot is a sum, and the next position is no further generation's.
pub mod Owner
pub mod Thief
pub mod Queue
pub mod Advance
pub mod Lifo
mod Examples
use rskynet.Base.{
  ℕ, zero, suc, ◌+◌, ◌-◌, ◌*◌, ◌%◌, ◌/◌, ◌^◌, Bool, true, false, Option, none, some, ltb, leb, ◌==◌,
  if◌then◌else◌, u64_max, u64_mod, wrapping_sub, shr, low_bits,
}

abbrev pub slot_bits : ℕ
slot_bits = 8

abbrev pub max_generation : ℕ
max_generation = 2 ^ 56 - 1

-- `generation << SLOT_BITS` in a word.
abbrev pub pack : ℕ → ℕ
pack generation = generation * 256 % u64_mod

abbrev pub slot_of : ℕ → ℕ
slot_of word = low_bits word slot_bits

abbrev pub generation_of : ℕ → ℕ
generation_of word = shr word slot_bits

pub record Block (T : Type 0) : Type 0 where
  pub head : ℕ
  pub tail : ℕ
  pub steal_count : ℕ
  pub steal_tail : ℕ
  pub ring : ℕ → Option T
  pub block_size : ℕ

-- What a thief finds before it exchanges: its answer, or the position that it will try to take.
pub data Look : Type 0 where
  empty : Look
  over : Look
  claims : ℕ → Look

module _ {T : Type 0} where
  -- A block that was never used: at the end of the generation before the first.
  unfoldable pub new : ℕ → Block T
  new block_size = record {
    head = pack max_generation + block_size;
    tail = block_size;
    steal_count = block_size;
    steal_tail = pack max_generation + block_size;
    ring = λ i. none;
    block_size = block_size;
  }

  unfoldable pub put : T → Block T → Option (Block T)
  put value b =
      if ltb b.tail b.block_size
      then some
          (record b { ring = λ i. if i == b.tail then some value else b.ring i; tail = b.tail + 1 })
      else none

  unfoldable pub get : Block T → Option (Option T × Block T)
  get b =
      if b.tail == 0
      then none
      else if slot_of b.head == b.tail
      then none
      else some (b.ring (b.tail - 1), record b { tail = b.tail - 1 })

  -- `steal` up to the exchange.
  unfoldable pub steal_look : ℕ → Block T → Look
  steal_look thief_generation b =
      if generation_of b.steal_tail == thief_generation
      then (if slot_of b.steal_tail == b.block_size
          then over
          else if slot_of b.steal_tail == b.tail
          then empty
          else claims b.steal_tail)
      else empty

  -- The exchange of a position seen before, the read and the count; `none` is a conflict.
  unfoldable pub steal_claim : ℕ → Block T → Option (Option T × Block T)
  steal_claim spos b =
      if b.steal_tail == spos
      then some (
        b.ring (slot_of spos),
        record b { steal_tail = spos + 1; steal_count = b.steal_count + 1 },
      )
      else none

  unfoldable pub takeover : Block T → Block T
  takeover b = record b { steal_tail = b.head; head = b.steal_tail }

  unfoldable pub grant : Block T → Block T
  grant b = record b { head = b.steal_tail; steal_tail = b.head }

  unfoldable pub is_writable : ℕ → Block T → Bool
  is_writable generation b = b.steal_tail == pack (wrapping_sub generation 1) + b.block_size

  -- `none` is the spinning for thieves that are still at work.
  unfoldable pub reclaim : ℕ → Block T → Option (Block T)
  reclaim generation b =
      if b.steal_count == slot_of b.head
      then some (record b {
        head = pack generation;
        tail = 0;
        steal_tail = pack generation + b.block_size;
        steal_count = 0;
      })
      else none

  unfoldable pub reduce_generation : Block T → Block T
  reduce_generation b = record b { steal_tail = wrapping_sub b.steal_tail 256 }
