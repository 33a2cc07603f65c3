-- ===== src/Net/Buffer.antt =====
-- crates/rskynet-net/src/buffer.rs: the write queue of a connection, and the size of its next read.
-- Sizes stay below 2^64 because they count bytes in memory, so `usize` sums are plain sums. A
-- socket address is a value of any type `Addr`; it is passed on and never looked at.
pub mod Stream
pub mod Sizer
mod Examples
use rskynet.Base.{
  ℕ, zero, suc, ◌+◌, ◌-◌, ◌*◌, ◌/◌, Bool, true, false, ◌&&◌, ◌||◌, List, [], ◌∷◌, ◌++◌, Option,
  none, some, ltb, leb, ◌==◌, if◌then◌else◌, length, drop, ◌%◌, u64_mod,
}

pub record Chunk (Addr : Type 0) : Type 0 where
  pub bytes : List ℕ
  pub offset : ℕ
  pub to : Option Addr

pub record WriteQueue (Addr : Type 0) : Type 0 where
  pub high : List (Chunk Addr)
  pub low : List (Chunk Addr)
  pub size : ℕ
  pub warn_at : ℕ

abbrev pub is_nil {ℓ} : {A : Type ℓ} → List A → Bool
is_nil [] = true
is_nil (x ∷ xs) = false

module _ {Addr : Type 0} where
  unfoldable pub tcp : List ℕ → Chunk Addr
  tcp bytes = record { bytes = bytes; offset = 0; to = none }

  unfoldable pub udp : List ℕ → Addr → Chunk Addr
  udp bytes to = record { bytes = bytes; offset = 0; to = some to }

  -- What is not written yet.
  abbrev pub rest : Chunk Addr → List ℕ
  rest c = drop c.offset c.bytes

  unfoldable pub empty_queue : WriteQueue Addr
  empty_queue = record { high = []; low = []; size = 0; warn_at = 0 }

  unfoldable pub is_empty : WriteQueue Addr → Bool
  is_empty q = is_nil q.high && is_nil q.low

  -- The kilobytes to warn of, if any.
  unfoldable pub push : WriteQueue Addr → Chunk Addr → Bool → ℕ → Option ℕ × WriteQueue Addr
  push q chunk high threshold =
      let size = q.size + length (rest chunk) in
      let queued =
        if high
        then record q { high = q.high ++ chunk ∷ []; size = size }
        else record q { low = q.low ++ chunk ∷ []; size = size } in
      if ltb size threshold || ltb size q.warn_at then (none, queued) else (
        some (size / 1024),
        record queued { warn_at = if q.warn_at == 0 then threshold * 2 else q.warn_at * 2 },
      )

  -- The first chunk of the low queue goes to the high one, if that is empty.
  abbrev pub raise : List (Chunk Addr) → WriteQueue Addr → WriteQueue Addr
  raise [] q = q
  raise (c ∷ cs) q = record q { high = q.high ++ c ∷ []; low = cs }

  abbrev pub front : List (Chunk Addr) → Option (Chunk Addr)
  front [] = none
  front (c ∷ cs) = some c

  unfoldable pub next : WriteQueue Addr → Option (Chunk Addr) × WriteQueue Addr
  next q = let q' = if is_nil q.high then raise q.low q else q in (front q'.high, q')

  -- The end of `consume`: a drained queue forgets its warnings.
  abbrev pub reset : WriteQueue Addr → WriteQueue Addr
  reset q = if is_nil q.high && is_nil q.low then record q { warn_at = 0 } else q

  -- `consume`, past the subtraction, on the high queue. (`size -= written` is only made for bytes
  -- that were pending.)
  abbrev pub advance : WriteQueue Addr → ℕ → List (Chunk Addr) → WriteQueue Addr
  advance q written [] = q
  advance q written (c ∷ cs) =
      let offset = c.offset + written in
      reset (
        if leb (length c.bytes) offset
        then record q { high = cs }
        else record q { high = record c { offset = offset } ∷ cs })

  unfoldable pub consume : WriteQueue Addr → ℕ → WriteQueue Addr
  consume q written = advance (record q { size = q.size - written }) written q.high

pub record ReadSizer : Type 0 where
  pub size : ℕ
  pub floor : ℕ

unfoldable pub new_sizer : ℕ → ReadSizer
new_sizer floor = record { size = floor; floor = floor }

-- The products of `usize` wrap around, as in a build without overflow checks.
unfoldable pub observe : ReadSizer → ℕ → ReadSizer
observe s read =
    if read == s.size
    then record s { size = s.size * 2 % u64_mod }
    else if ltb s.floor s.size && ltb (read * 2 % u64_mod) s.size
    then record s { size = s.size / 2 }
    else s
