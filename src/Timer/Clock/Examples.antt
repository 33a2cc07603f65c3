-- ===== src/Timer/Clock/Examples.antt =====
-- The clock's theorems at a concrete timer.
use rskynet.Base.{◌≡◌, refl, arith, [], ◌∷◌}
use rskynet.Timer.Wheel.{Wheel, TimerEvent, add}
use rskynet.Timer.Wheel.Inv.{empty_at, empty_at-Inv}
use rskynet.Timer.Clock.{WheelTimer, arm, cancel_key, update}
use rskynet.Timer.Clock.Update.{FiredOf, update-Fired}

abbrev event : TimerEvent
event = record { handle = 1; session = 2; expire = 3 }

-- One timer is due at tick 3, another is armed and cancelled again.
abbrev waiting : WheelTimer
waiting = record {
  incoming =
      arm event
      ∷ arm (record { handle = 1; session = 3; expire = 9 })
      ∷ cancel_key (record { handle = 1; session = 3 })
      ∷ [];
  start_time_unix_ms = 0;
  wheel_ticks = 0;
}

update_fires : (update waiting 45 (empty_at 0)).0 ≡ event ∷ []
unfolding update rskynet.Timer.Wheel.add rskynet.Timer.Wheel.cancel rskynet.Timer.Wheel.ticks
    rskynet.Timer.Wheel.tick rskynet.Timer.Wheel.execute rskynet.Timer.Wheel.shift
update_fires = refl

update-Fired_example :
    let (out, t', w') = update waiting 45 (empty_at 0) in
    FiredOf (empty_at 0) waiting.incoming 4 out w' × (t'.wheel_ticks ≡ 4) × (t'.incoming ≡ [])
unfolding rskynet.Timer.Wheel.add rskynet.Timer.Wheel.cancel
update-Fired_example =
    update-Fired waiting 45 (empty_at 0) (empty_at-Inv 0 (omega arith))
      ((refl, omega arith), ((refl, omega arith), (tt, tt))) refl (omega arith) (omega arith)
