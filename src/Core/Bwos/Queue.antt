-- ===== src/Core/Bwos/Queue.antt =====
-- crates/rskynet-core/src/bwos.rs: the queue of blocks, `LifoQueue`. Blocks have a number that only
-- grows; its place is the number's low bits, its generation the rest. The number of blocks is a
-- power of two, 2 ^ block_shift. Each function is what its caller does undisturbed.
use rskynet.Base.{
  ℕ, zero, suc, ◌+◌, Bool, true, false, Option, none, some, ltb, leb, ◌==◌, if◌then◌else◌, u64_mod,
  shr, low_bits,
}
use rskynet.Core.Bwos.{
  Block, empty, over, claims, max_generation, put, get, steal_look, steal_claim, takeover, grant,
  is_writable, reclaim, reduce_generation,
}

pub record LifoQueue (T : Type 0) : Type 0 where
  pub last_block : ℕ
  pub start_block : ℕ
  pub blocks : ℕ → Block T
  pub block_shift : ℕ

-- What a call ends with: a result, a panic, the spinning for thieves in `reclaim`, or no end of the
-- fuel given.
pub data Ends (A : Type 0) : Type 0 where
  ends : A → Ends A
  panics : Ends A
  spins : Ends A
  out_of_fuel : Ends A

abbrev pub and_then : {A B : Type 0} → Ends A → (A → Ends B) → Ends B
and_then (ends a) f = f a
and_then panics f = panics
and_then spins f = spins
and_then out_of_fuel f = out_of_fuel

-- `Pushed`, or the value that found no room.
pub data Pushed : Type 0 where
  local : Pushed
  granted : Pushed
  no_room : Pushed

unfoldable pub previous_sequence : ℕ → Ends ℕ
previous_sequence zero = panics
previous_sequence (suc sequence) = ends sequence

module _ {T : Type 0} where
  abbrev pub place : LifoQueue T → ℕ → ℕ
  place q sequence = low_bits sequence q.block_shift

  abbrev pub set_block : ℕ → Block T → LifoQueue T → LifoQueue T
  set_block i b q = record q { blocks = λ j. if j == i then b else q.blocks j }

  unfoldable pub next_sequence : LifoQueue T → ℕ → Ends ℕ
  next_sequence q sequence =
      if leb u64_mod (sequence + 1)
      then panics
      else if leb (shr (sequence + 1) q.block_shift) max_generation
      then ends (sequence + 1)
      else panics

  -- The thieves start a block later, if theirs is about to be used again.
  abbrev pub push_start : ℕ → LifoQueue T → Ends (LifoQueue T)
  push_start index q =
      if index == place q q.start_block
      then and_then (next_sequence q q.start_block) (λ n. ends (record q { start_block = n }))
      else ends q

  -- The block that was reclaimed is the owner's.
  abbrev pub entered : ℕ → LifoQueue T → Option (Block T) → Ends (Bool × LifoQueue T)
  entered next q none = spins
  entered next q (some b) = ends (true, record (set_block (place q next) b q) { last_block = next })

  -- The owner's block goes to the thieves, and the next one is the owner's.
  abbrev pub enter : ℕ → ℕ → LifoQueue T → Ends (Bool × LifoQueue T)
  enter owner next q =
      let given = set_block (place q owner) (grant (q.blocks (place q owner))) q in
      entered next given (reclaim (shr next q.block_shift) (given.blocks (place q next)))

  unfoldable pub advance_put_index : ℕ → LifoQueue T → Ends (Bool × LifoQueue T)
  unfolding next_sequence
  advance_put_index owner q = and_then (next_sequence q owner) (λ next.
      if place q next == place q owner
      then ends (false, q)
      else if is_writable (shr next q.block_shift) (q.blocks (place q next))
      then and_then (push_start (place q next) q) (λ r. enter owner next r)
      else ends (false, q))

  unfoldable pub push_loop : ℕ → T → Pushed → LifoQueue T → Ends (Pushed × LifoQueue T)
  unfolding advance_put_index
  push_loop zero value so_far q = out_of_fuel
  push_loop (suc fuel) value so_far q =
      let i = place q q.last_block in
      elim (put value (q.blocks i)) [
        | some b ↦ ends (so_far, set_block i b q)
        | none ↦
            and_then (advance_put_index q.last_block q)
              (λ r. if r.0 then push_loop fuel value granted r.1 else ends (no_room, r.1))
      ]

  -- The block that was entered has room.
  unfoldable pub push_back : T → LifoQueue T → Ends (Pushed × LifoQueue T)
  unfolding push_loop
  push_back value q = push_loop 2 value local q

  unfoldable pub advance_get_index : ℕ → LifoQueue T → Ends (Bool × LifoQueue T)
  unfolding previous_sequence
  advance_get_index owner q =
      if q.start_block == owner
      then ends (false, q)
      else and_then (previous_sequence owner) (λ before.
        let left = set_block (place q owner) (reduce_generation (q.blocks (place q owner))) q in
        let back = set_block (place q before) (takeover (left.blocks (place q before))) left in
        ends (true, record back { last_block = before }))

  -- The loop of `pop_back`.
  unfoldable pub pop_loop : ℕ → LifoQueue T → Ends (Option T × LifoQueue T)
  unfolding advance_get_index
  pop_loop zero q = out_of_fuel
  pop_loop (suc fuel) q =
      let i = place q q.last_block in
      elim (get (q.blocks i)) [
        | some r ↦ ends (r.0, set_block i r.1 q)
        | none ↦
            and_then (advance_get_index q.last_block q)
              (λ r. if r.0 then pop_loop fuel r.1 else ends (none, r.1))
      ]

  -- Each round but the last goes back by a block.
  unfoldable pub pop_back : LifoQueue T → Ends (Option T × LifoQueue T)
  unfolding pop_loop
  pop_back q = pop_loop (suc q.last_block) q

  unfoldable pub advance_steal_index : ℕ → LifoQueue T → Ends (Bool × ℕ)
  unfolding next_sequence
  advance_steal_index thief q =
      and_then (next_sequence q thief) (λ next. ends (ltb next q.last_block, next))

  -- The loop of `steal_front` from a block on, without a conflict.
  unfoldable pub steal_loop : ℕ → ℕ → LifoQueue T → Ends (Option T × LifoQueue T)
  unfolding advance_steal_index
  steal_loop zero thief q = out_of_fuel
  steal_loop (suc fuel) thief q =
      let i = place q thief in
      elim (steal_look (shr thief q.block_shift) (q.blocks i)) [
        | empty ↦ ends (none, q)
        | claims spos ↦ elim (steal_claim spos (q.blocks i)) [
          | none ↦ steal_loop fuel thief q
          | some r ↦ ends (r.0, set_block i r.1 q)
        ]
        | over ↦
            and_then (advance_steal_index thief q)
              (λ r. if r.0 then steal_loop fuel r.1 q else ends (none, q))
      ]

  unfoldable pub steal_front : LifoQueue T → Ends (Option T × LifoQueue T)
  unfolding steal_loop
  steal_front q = steal_loop (suc q.last_block) q.start_block q
