-- ===== src/Core/Error.antt =====
-- crates/rskynet-core/src/error.rs: the errors of the kernel. The causes that other crates define
-- (an I/O error, a TOML or JSON error) are carried as their texts.
use Prim.Native.Nat.{ℕ}
use Prim.Native.String.{String}

pub data Error : Type 0 where
  no_service : ℕ → Error
  unknown_service : String → Error
  name_not_found : String → Error
  call_failed : ℕ → Error
  canceled : Error
  init : String → String → Error
  service : String → Error
  payload : String → Error
  config : String → Error
  config_io : String → String → Error
  config_parse : String → Error
  missing_timer : Error
  json : String → Error
  io : String → Error

-- `error::Result`
pub data Result {ℓ} (A : Type ℓ) : Type ℓ where
  ok : A → Result A
  err : Error → Result A
