-- ===== src/Core/Message.antt =====
-- crates/rskynet-core/src/message.rs: messages between services. A payload is a value of any type
-- `P`; a kind of message is its number.
use rskynet.Base.{ℕ, Bool, not, ◌||◌, ◌==◌}

pub record Message (P : Type 0) : Type 0 where
  pub source : ℕ
  pub session : ℕ
  pub mtype : ℕ
  pub payload : P

abbrev pub response_type : ℕ
response_type = 1

abbrev pub error_type : ℕ
error_type = 6

unfoldable pub is_reply : ℕ → Bool
is_reply mtype = mtype == response_type || mtype == error_type

unfoldable pub needs_reply : {P : Type 0} → Message P → Bool
needs_reply m = not (m.session == 0)
