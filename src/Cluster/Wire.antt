-- ===== src/Cluster/Wire.antt =====
-- crates/rskynet-cluster/src/wire.rs: envelopes on a byte stream, each behind its length in four bytes.
-- The encoding of an envelope is that of the protobuf library: `encode` and `decode` are arguments,
-- and an envelope is a value of any type `E`.
pub mod Stream
pub mod RoundTrip
mod Examples
use rskynet.Base.{
  ℕ, zero, suc, ◌+◌, ◌*◌, ◌/◌, ◌%◌, List, [], ◌∷◌, ◌++◌, Option, none, some, ltb, if◌then◌else◌,
  ◌||◌, length, take, drop,
}

-- `u32::MAX`
abbrev pub u32_max : ℕ
u32_max = 4294967295

-- `to_be_bytes` of a `u32`.
abbrev pub to_be_bytes : ℕ → List ℕ
to_be_bytes n = n / 16777216 % 256 ∷ n / 65536 % 256 ∷ n / 256 % 256 ∷ n % 256 ∷ []

-- The first four bytes as a number, and the rest; `none` if there are fewer.
abbrev pub read_u32 : List ℕ → Option (ℕ × List ℕ)
read_u32 [] = none
read_u32 (a ∷ []) = none
read_u32 (a ∷ b ∷ []) = none
read_u32 (a ∷ b ∷ c ∷ []) = none
read_u32 (a ∷ b ∷ c ∷ d ∷ rest) = some (((a * 256 + b) * 256 + c) * 256 + d, rest)

-- `none` is the error of a body that is too long.
unfoldable pub frame {ℓ} : {E : Type ℓ} → (E → List ℕ) → E → ℕ → Option (List ℕ)
frame encode envelope limit =
    let body = encode envelope in
    if ltb limit (length body) || ltb u32_max (length body)
    then none
    else some (to_be_bytes (length body) ++ body)

-- What `drain` gives: the envelopes and what stays in the buffer, or an error, with which the buffer
-- stays as it was; or no end of the fuel given.
pub data Drained {ℓ} (E : Type ℓ) : Type ℓ where
  drained : List E → List ℕ → Drained E
  too_long : Drained E
  malformed : Drained E
  out_of_fuel : Drained E

module _ {ℓ} {E : Type ℓ} where
  -- An envelope before those that the loop finds later.
  abbrev pub before : List E → Drained E → Drained E
  before es (drained fs rest) = drained (es ++ fs) rest
  before es too_long = too_long
  before es malformed = malformed
  before es out_of_fuel = out_of_fuel

  -- The loop of `drain` from the bytes that are not consumed yet.
  unfoldable pub drain_loop : ℕ → (List ℕ → Option E) → ℕ → List ℕ → Drained E
  drain_loop zero decode limit bytes = out_of_fuel
  drain_loop (suc fuel) decode limit bytes = elim (read_u32 bytes) [
    | none ↦ drained [] bytes
    | some x ↦
        if ltb limit x.0
        then too_long
        else if ltb (length x.1) x.0
        then drained [] bytes
        else elim (decode (take x.0 x.1)) [
          | none ↦ malformed
          | some e ↦ before (e ∷ []) (drain_loop fuel decode limit (drop x.0 x.1))
        ]
  ]

  -- Each frame takes four bytes at least.
  unfoldable pub drain : (List ℕ → Option E) → ℕ → List ℕ → Drained E
  unfolding drain_loop
  drain decode limit buffer = drain_loop (suc (length buffer)) decode limit buffer
