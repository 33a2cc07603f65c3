-- ===== src/Timer/Wheel/Fire.antt =====
-- When events fire: at their tick, not earlier, not later, and each once.
use native.Mathlib.Decide.{dec_le}
use rskynet.Base.{
  ℕ, suc, ◌%◌, ◌≤◌, ◌<◌, ◌≡◌, ◌≢◌, refl, ap, sym, subst, ◌∙◌, arith, inl, inr, List, [], ◌∷◌, ◌++◌,
  Occurs, Occurs-append_left, Occurs-append_right, Occurs-append_cases,
}
use rskynet.Timer.Wheel.{Wheel, TimerEvent, execute}
use rskynet.Timer.Wheel.Place.{near_bucket, bucket, set_bucket, bucket-set_self}
use rskynet.Timer.Wheel.Ticks.{near_due}
use rskynet.Timer.Wheel.Inv.{At, Stored, Inv}
use rskynet.Timer.Wheel.Moves.{taken, taken-At, taken-At_inv, taken-Inv, bucket-forget, time-forget}
use rskynet.Timer.Wheel.Shift.{now_bucket, due_now, not_due}

-- The events come in the order of their ticks.
abbrev pub InOrder : List TimerEvent → Type 0
InOrder [] = Unit {0}
InOrder (e ∷ es) = ((x : TimerEvent) → Occurs x es → e.expire ≤ x.expire) × InOrder es

pub InOrder-append :
    (t : ℕ) (xs ys : List TimerEvent)
    → InOrder xs
    → InOrder ys
    → ((x : TimerEvent) → Occurs x xs → x.expire ≤ t)
    → ((y : TimerEvent) → Occurs y ys → t < y.expire)
    → InOrder (xs ++ ys)
InOrder-append t [] ys hx hy le lt = hy
InOrder-append t (x ∷ xs) ys hx hy le lt = (
  λ y o. elim (Occurs-append_cases y xs ys o) [
    | inl before ↦ hx.0 y before
    | inr after ↦ omega (arith, le x (0, refl), lt y after)
  ],
  InOrder-append t xs ys hx.1 hy (λ y o. le y (suc o.0, o.1)) lt,
)

InOrder-of_const :
    (t : ℕ) (xs : List TimerEvent) → ((x : TimerEvent) → Occurs x xs → x.expire ≡ t) → InOrder xs
InOrder-of_const t [] h = tt
InOrder-of_const t (x ∷ xs) h = (
  λ y o. omega (arith, h x (0, refl), h y (suc o.0, o.1)),
  InOrder-of_const t xs (λ y o. h y (suc o.0, o.1)),
)

-- `out` is what fired between `from` and `to`, and `u` is the wheel that is left of `w`.
pub record Fired (w : Wheel) (to : ℕ) (out : List TimerEvent) (u : Wheel) : Type 0 where
  pub inv : Inv u
  pub clock : u.time ≡ to
  pub fires : (e : TimerEvent) → Stored w e → e.expire ≤ to → Occurs e out
  pub keeps : (e : TimerEvent) → Stored w e → to < e.expire → Stored u e
  pub fired_due : (e : TimerEvent) → Occurs e out → Stored w e × (e.expire ≤ to)
  pub in_order : InOrder out
  pub kept_later : (e : TimerEvent) → Stored u e → Stored w e × (to < e.expire)

-- What `execute` leaves: the wheel with its current slot taken out.
time-taken : (w : Wheel) → (taken w (now_bucket w)).time ≡ w.time
time-taken w = time-forget (set_bucket w (now_bucket w) []) (bucket w (now_bucket w))

now-taken : (w : Wheel) → bucket (taken w (now_bucket w)) (now_bucket (taken w (now_bucket w))) ≡ []
now-taken w =
    ap (λ t. bucket (taken w (now_bucket w)) (near_bucket (t % 256))) (time-taken w)
    ∙ bucket-forget (set_bucket w (now_bucket w) []) (bucket w (now_bucket w)) (now_bucket w)
    ∙ bucket-set_self w (now_bucket w) []

-- What stands in the current slot is due, and nothing else is.
due_in_slot :
    (w : Wheel) (e : TimerEvent) → Inv w → Occurs e (bucket w (now_bucket w)) → e.expire ≡ w.time
due_in_slot w e v (i, at) =
    let p = v.placed (now_bucket w) i e at in near_due e.expire w.time p.fits.0 (sym p.fits.1)

-- `execute` fires exactly what is due now.
pub execute-Fired : (w : Wheel) → Inv w → Fired w w.time (execute w).0 (execute w).1
unfolding execute
execute-Fired w v = record {
  inv = taken-Inv w (now_bucket w) v;
  clock = time-taken w;
  fires = λ e s le.
      let p = v.placed s.0 s.1 e s.2 in
      (s.1, subst (λ b. At w b s.1 e) (due_now w.time s.0 e p (omega (arith, p.ahead))) s.2);
  keeps = λ e s lt. (s.0, s.1, taken-At w (now_bucket w) s.0 s.1 e (later e s lt) s.2);
  fired_due = λ e o. ((now_bucket w, o.0, o.1), omega (arith, due_in_slot w e v o));
  in_order = InOrder-of_const w.time (bucket w (now_bucket w)) (λ e o. due_in_slot w e v o);
  kept_later = λ e s. stays e s (taken-At_inv w (now_bucket w) s.0 s.1 e s.2);
}
  where
    later : (e : TimerEvent) (s : Stored w e) → w.time < e.expire → s.0 ≢ now_bucket w
    later e s lt p =
        absurd (omega (arith, due_in_slot w e v (s.1, subst (λ b. At w b s.1 e) p s.2)))

    stays :
        (e : TimerEvent) (s : Stored (taken w (now_bucket w)) e)
        → (s.0 ≢ now_bucket w) × At w s.0 s.1 e
        → Stored w e × (w.time < e.expire)
    stays e s (ne, at) = (
      (s.0, s.1, at),
      subst (λ t. t < e.expire) (time-taken w)
          (not_due (taken w (now_bucket w)) s.0 s.1 e (taken-Inv w (now_bucket w) v) (now-taken w)
            s.2),
    )

pub now_empty-execute : (w : Wheel) → bucket (execute w).1 (now_bucket (execute w).1) ≡ []
unfolding execute
now_empty-execute w = now-taken w

-- What fires by one time, then by a later one.
pub Fired-then :
    {w u v x : Wheel} {s t : ℕ} {xs ys : List TimerEvent}
    → Fired w s xs u
    → ((e : TimerEvent) → Stored u e → Stored v e)
    → ((e : TimerEvent) → Stored v e → Stored u e)
    → Fired v t ys x
    → s ≤ t
    → Fired w t (xs ++ ys) x
Fired-then {s = s} {t = t} {xs = xs} {ys = ys} f to from g le = record {
  inv = g.inv;
  clock = g.clock;
  fires = λ e st due. elim (dec_le e.expire s) [
    | yes early ↦ Occurs-append_left e xs ys (f.fires e st early)
    | no late ↦ Occurs-append_right e xs ys (g.fires e (to e (f.keeps e st (omega arith))) due)
  ];
  keeps = λ e st lt. g.keeps e (to e (f.keeps e st (omega arith))) lt;
  fired_due = λ e o. elim (Occurs-append_cases e xs ys o) [
    | inl early ↦ let d = f.fired_due e early in (d.0, omega (arith, d.1))
    | inr late ↦ let d = g.fired_due e late in ((f.kept_later e (from e d.0)).0, d.1)
  ];
  in_order =
      InOrder-append s xs ys f.in_order g.in_order (λ e o. (f.fired_due e o).1)
        (λ e o. (f.kept_later e (from e (g.fired_due e o).0)).1);
  kept_later = λ e st. let d = g.kept_later e st in ((f.kept_later e (from e d.0)).0, d.1);
}
