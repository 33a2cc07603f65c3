-- ===== src/Timer/Wheel/Rounds.antt =====
-- The loop that drives the wheel: what fires in a number of ticks, in which order, and what stays.
use mathlib.Core.List.{append-nil}
use rskynet.Base.{ℕ, zero, suc, ◌+◌, ◌<◌, ◌≡◌, ap, sym, subst, ◌∙◌, arith, u64_mod}
use rskynet.Timer.Wheel.{Wheel, shift, execute, tick, ticks}
use rskynet.Timer.Wheel.Inv.{Inv}
use rskynet.Timer.Wheel.Fire.{Fired, execute-Fired, now_empty-execute, Fired-then}
use rskynet.Timer.Wheel.Cascade.{Shifted, shift-Shifted}

tick-Fired : (w : Wheel) → Inv w → suc w.time < u64_mod → Fired w (suc w.time) (tick w).0 (tick w).1
unfolding tick
tick-Fired w v small = Fired-then first shifted.keeps shifted.adds_none second (omega arith)
  where
    first : Fired w w.time (execute w).0 (execute w).1
    first = execute-Fired w v

    shifted : Shifted (execute w).1 (shift (execute w).1)
    shifted =
        shift-Shifted (execute w).1 first.inv (now_empty-execute w)
          (subst (λ t. suc t < u64_mod) (sym first.clock) small)

    at : (shift (execute w).1).time ≡ suc w.time
    at = shifted.ticked ∙ ap suc first.clock

    second :
        Fired
          (shift (execute w).1)
          (suc w.time)
          (execute (shift (execute w).1)).0
          (execute (shift (execute w).1)).1
    second =
        subst
          (λ t.
            Fired (shift (execute w).1) t (execute (shift (execute w).1)).0
              (execute (shift (execute w).1)).1)
          at (execute-Fired (shift (execute w).1) shifted.inv)

-- From a wheel with the invariant, as long as the clock does not wrap: after n > 0 rounds exactly the events whose tick has come by then have fired, each is gone from
-- the wheel and all others are still stored, the events that fired come in the order of their
-- ticks, the clock has gone on by n ticks, and the invariant holds.
pub ticks-Fired :
    (n : ℕ) (w : Wheel)
    → Inv w
    → suc (w.time + n) < u64_mod
    → Fired w (suc (w.time + n)) (ticks (suc n) w).0 (ticks (suc n) w).1
unfolding ticks
ticks-Fired zero w v small =
    rw append-nil
      (subst (λ t. Fired w t (tick w).0 (tick w).1) (omega arith) (tick-Fired w v (omega arith)))
ticks-Fired (suc n) w v small =
    Fired-then first (λ e s. s) (λ e s. s)
      (subst (λ t. Fired (tick w).1 t (ticks (suc n) (tick w).1).0 (ticks (suc n) (tick w).1).1)
        (omega (arith, first.clock))
        (ticks-Fired n (tick w).1 first.inv (omega (arith, first.clock))))
      (omega arith)
  where
    first : Fired w (suc w.time) (tick w).0 (tick w).1
    first = tick-Fired w v (omega arith)
