-- ===== src/Timer/Clock.antt =====
-- crates/rskynet-timer/src/lib.rs: `WheelTimer`, the clock in front of the wheel. The FIFO
-- `incoming` is a list, oldest first. The monotonic clock of the operating system is an argument:
-- `now` is what `WheelTimer::now` returns, milliseconds since the start. `update` runs on the one
-- thread that owns the wheel; a command pushed while it runs is one that it finds or one that the
-- next call finds.
pub mod Pending
pub mod Update
mod Examples
use rskynet.Base.{
  ℕ, zero, suc, ◌+◌, ◌-◌, ◌*◌, ◌/◌, List, [], ◌∷◌, ◌++◌, if◌then◌else◌, ◌==◌, saturating_add, Bool,
}
use rskynet.Timer.Wheel.{Wheel, TimerEvent, TimerKey, add, cancel, execute, ticks}

pub data TimerCommand : Type 0 where
  arm : TimerEvent → TimerCommand
  cancel_key : TimerKey → TimerCommand

pub record WheelTimer : Type 0 where
  pub incoming : List TimerCommand
  pub start_time_unix_ms : ℕ
  pub wheel_ticks : ℕ

unfoldable pub new : ℕ → WheelTimer
new start = record { incoming = []; start_time_unix_ms = start; wheel_ticks = 0 }

-- `u64::div_ceil`
abbrev pub div_ceil : ℕ → ℕ → ℕ
div_ceil a b = (a + (b - 1)) / b

-- The tick at which a timer armed now is due.
unfoldable pub expire_of : ℕ → ℕ → ℕ
expire_of now delay_ms = div_ceil (saturating_add now delay_ms) 10

unfoldable pub timeout : WheelTimer → ℕ → ℕ → ℕ → ℕ → WheelTimer
unfolding expire_of
timeout t now handle session delay_ms = record t {
  incoming =
      t.incoming
      ++ arm (record { handle = handle; session = session; expire = expire_of now delay_ms }) ∷ [];
}

unfoldable pub cancel_timer : WheelTimer → ℕ → ℕ → WheelTimer
cancel_timer t handle session = record t {
  incoming = t.incoming ++ cancel_key (record { handle = handle; session = session }) ∷ [];
}

unfoldable pub wall_clock : WheelTimer → ℕ → ℕ
wall_clock t now = saturating_add t.start_time_unix_ms now

abbrev pub apply_command : Wheel → TimerCommand → Wheel
apply_command w (arm e) = add w e
apply_command w (cancel_key k) = cancel w k

-- The loop of `update` that drains `incoming`.
unfoldable pub drain : Wheel → List TimerCommand → Wheel
drain w [] = w
drain w (c ∷ cs) = drain (apply_command w c) cs

-- The events that fired, the timer and the wheel.
unfoldable pub update : WheelTimer → ℕ → Wheel → List TimerEvent × WheelTimer × Wheel
unfolding drain
update t now wheel =
    let target_tick = now / 10 in
    let diff = target_tick - t.wheel_ticks in
    let w = drain wheel t.incoming in
    let drained = record t { incoming = [] } in
    let (due, rest) = execute w in
    let (out, moved) = ticks diff w in
    if diff == 0
    then (due, drained, rest)
    else (out, record drained { wheel_ticks = target_tick }, moved)
