-- ===== src/Timer/Clock/Update.antt =====
-- Timers fire when their time has come: not early, and no later than the update that finds it past.
use rskynet.Base.{
  ℕ, zero, suc, ◌+◌, ◌-◌, ◌*◌, ◌/◌, ◌≤◌, ◌<◌, false, ◌≡◌, refl, subst, ◌∙◌, arith, u64_mod, u64_max,
  List, [], ◌∷◌, Occurs, ◌==◌,
}
use rskynet.Timer.Wheel.{Wheel, TimerEvent, execute, ticks}
use rskynet.Timer.Wheel.Inv.{Inv, Stored}
use rskynet.Timer.Wheel.Fire.{Fired, InOrder, execute-Fired}
use rskynet.Timer.Wheel.Rounds.{ticks-Fired}
use rskynet.Timer.Clock.{TimerCommand, WheelTimer, expire_of, apply_command, drain, update}
use rskynet.Timer.Clock.Pending.{
  IsPending, CommandsFit, apply_command-Inv, time-apply_command, drain-IsPending,
}

-- If the deadline in milliseconds fits in 64 bits, the tick of a timer is the first that lies at or
-- past it, and fits too.
pub expire_of_lem :
    (now delay_ms : ℕ)
    → now + delay_ms ≤ u64_max
    → (now + delay_ms ≤ expire_of now delay_ms * 10)
      × (expire_of now delay_ms * 10 < now + delay_ms + 10)
      × (expire_of now delay_ms < u64_mod)
unfolding expire_of
expire_of_lem now delay_ms h = omega arith

pub drain-Inv :
    (w : Wheel) (cs : List TimerCommand)
    → Inv w
    → CommandsFit w cs
    → Inv (drain w cs) × ((drain w cs).time ≡ w.time)
unfolding drain
drain-Inv w [] v fits = (v, refl)
drain-Inv w (c ∷ cs) v fits =
    let (kept, time) = drain-Inv (apply_command w c) cs (apply_command-Inv w c v fits.0) fits.1 in
    (kept, time ∙ time-apply_command w c v)

-- `out` is what fired of the events that the wheel and the commands left to fire, up to the tick `to`,
-- and `u` is the wheel with the others.
pub record FiredOf (w : Wheel) (cs : List TimerCommand) (to : ℕ) (out : List TimerEvent) (u : Wheel)
    : Type 0 where
  pub inv : Inv u
  pub clock : u.time ≡ to
  pub fires : (e : TimerEvent) → IsPending w cs e → e.expire ≤ to → Occurs e out
  pub keeps : (e : TimerEvent) → IsPending w cs e → to < e.expire → Stored u e
  pub fired_due : (e : TimerEvent) → Occurs e out → IsPending w cs e × (e.expire ≤ to)
  pub in_order : InOrder out
  pub kept_later : (e : TimerEvent) → Stored u e → IsPending w cs e × (to < e.expire)

update-Fired_drained :
    (t : WheelTimer) (now : ℕ) (w : Wheel)
    → Inv w
    → CommandsFit w t.incoming
    → w.time ≡ t.wheel_ticks
    → t.wheel_ticks ≤ now / 10
    → now / 10 < u64_mod
    → let (out, t', w') = update t now w in
      Fired (drain w t.incoming) (now / 10) out w'
      × (t'.wheel_ticks ≡ now / 10)
      × (t'.incoming ≡ [])
unfolding update
update-Fired_drained t now w v fits clock past small = go (now / 10 - t.wheel_ticks) refl
  where
    u : Wheel
    u = drain w t.incoming

    ready : Inv u × (u.time ≡ w.time)
    ready = drain-Inv w t.incoming v fits

    go :
        (d : ℕ)
        → now / 10 - t.wheel_ticks ≡ d
        → let (out, t', w') = update t now w in
          Fired u (now / 10) out w' × (t'.wheel_ticks ≡ now / 10) × (t'.incoming ≡ [])
    go zero e = rw e (
      subst (λ x. Fired u x (execute u).0 (execute u).1) (omega (arith, ready.1))
          (execute-Fired u ready.0),
      omega arith,
      refl,
    )
    go (suc n) e =
        let moves : (suc n == 0) ≡ false = ground arith in
        rw (e, moves)
          (
            subst (λ x. Fired u x (ticks (suc n) u).0 (ticks (suc n) u).1) (omega (arith, ready.1))
                (ticks-Fired n u ready.0 (omega (arith, ready.1))),
            refl,
            refl,
          )

-- With a wheel in its invariant at the tick `wheel_ticks`, commands that arm no key which has a timer,
-- ticks of 64 bits, and a `now` not before that tick. To fire are the events that were stored and are not cancelled, and
-- those that a command arms and no later one cancels, at the wheel's tick if theirs is past. Of
-- these, `update` fires exactly the ones whose tick has come by `now`, in the order of their ticks, and
-- the others stay stored, and nothing else does; the wheel's clock stands at `now / 10`, as
-- `wheel_ticks` does, and the queue is empty.
pub update-Fired :
    (t : WheelTimer) (now : ℕ) (w : Wheel)
    → Inv w
    → CommandsFit w t.incoming
    → w.time ≡ t.wheel_ticks
    → t.wheel_ticks ≤ now / 10
    → now / 10 < u64_mod
    → let (out, t', w') = update t now w in
      FiredOf w t.incoming (now / 10) out w' × (t'.wheel_ticks ≡ now / 10) × (t'.incoming ≡ [])
update-Fired t now w v fits clock past small =
    let (f, ticked, drained) = update-Fired_drained t now w v fits clock past small in
    let to : (e : TimerEvent) → Stored (drain w t.incoming) e → IsPending w t.incoming e =
      λ e. (drain-IsPending w t.incoming e v fits).0 in
    let from : (e : TimerEvent) → IsPending w t.incoming e → Stored (drain w t.incoming) e =
      λ e. (drain-IsPending w t.incoming e v fits).1 in
    (
      record {
        inv = f.inv;
        clock = f.clock;
        fires = λ e p k. f.fires e (from e p) k;
        keeps = λ e p k. f.keeps e (from e p) k;
        fired_due = λ e o. let (s, k) = f.fired_due e o in (to e s, k);
        in_order = f.in_order;
        kept_later = λ e s. let (old, k) = f.kept_later e s in (to e old, k);
      },
      ticked,
      drained,
    )
