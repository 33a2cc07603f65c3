-- ===== src/Timer/Wheel/Examples.antt =====
-- Tests of the wheel, and its theorems at a concrete wheel: it stands at tick 254, just below a
-- carry, with one timer in the near wheel and two on the levels.
use rskynet.Base.{ℕ, suc, ◌+◌, ◌≡◌, refl, arith, List, [], ◌∷◌, none, some, map}
use rskynet.Timer.Wheel.{
  Wheel, TimerEvent, TimerKey, key, new, add, cancel, execute, shift, ticks, near_at, level_at,
}
use rskynet.Timer.Wheel.Inv.{Inv, empty_at, empty_at-Inv}
use rskynet.Timer.Wheel.Scatter.{add-Inv}
use rskynet.Timer.Wheel.Cascade.{Shifted, shift-Shifted}
use rskynet.Timer.Wheel.Cancel.{Cancelled, cancel-Cancelled}
use rskynet.Timer.Wheel.Fire.{Fired, execute-Fired, now_empty-execute}
use rskynet.Timer.Wheel.Rounds.{ticks-Fired}

abbrev timer : ℕ → ℕ → TimerEvent
timer session expire = record { handle = 1; session = session; expire = expire }

abbrev empty : Wheel
empty = empty_at 254

abbrev armed : Wheel
armed = add (add (add empty (timer 1 257)) (timer 2 255)) (timer 3 256)

sessions : List TimerEvent → List ℕ
sessions es = map (λ (e : TimerEvent). e.session) es

-- 256 and 257 lie in the next round: level 0, slot 1.
armed_locations :
    (armed.locations (key (timer 1 257)) ≡ some (level_at 0 1 0))
    × (armed.locations (key (timer 2 255)) ≡ some (near_at 255 0))
    × (armed.locations (key (timer 3 256)) ≡ some (level_at 0 1 1))
unfolding add
armed_locations = (refl, refl, refl)

-- A removal from within a bucket moves its last event.
cancel_moves :
    ((cancel armed (key (timer 1 257))).locations (key (timer 3 256)) ≡ some (level_at 0 1 0))
    × ((cancel armed (key (timer 1 257))).locations (key (timer 1 257)) ≡ none)
unfolding add cancel
cancel_moves = (refl, refl)

ticks_in_order : sessions (ticks 3 armed).0 ≡ 2 ∷ 3 ∷ 1 ∷ []
unfolding sessions add ticks rskynet.Timer.Wheel.tick execute shift
ticks_in_order = refl

ticks_one : sessions (ticks 1 armed).0 ≡ 2 ∷ []
unfolding sessions add ticks rskynet.Timer.Wheel.tick execute shift
ticks_one = refl

armed-Inv : Inv armed
unfolding add
armed-Inv =
    add-Inv (add (add empty (timer 1 257)) (timer 2 255)) (timer 3 256)
      (add-Inv (add empty (timer 1 257)) (timer 2 255)
        (add-Inv empty (timer 1 257) (empty_at-Inv 254 (omega arith)) refl (omega arith)) refl
        (omega arith))
      refl (omega arith)

cancel-Cancelled_example : Cancelled armed (key (timer 1 257)) (cancel armed (key (timer 1 257)))
cancel-Cancelled_example = cancel-Cancelled armed (key (timer 1 257)) armed-Inv

shift-Shifted_example : Shifted (execute armed).1 (shift (execute armed).1)
unfolding add execute
shift-Shifted_example =
    shift-Shifted (execute armed).1 (execute-Fired armed armed-Inv).inv (now_empty-execute armed)
      (omega arith)

ticks-Fired_example : Fired armed (suc (armed.time + 2)) (ticks 3 armed).0 (ticks 3 armed).1
unfolding add
ticks-Fired_example = ticks-Fired 2 armed armed-Inv (omega arith)
