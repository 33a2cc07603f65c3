-- ===== src/Timer/Wheel/Cascade.antt =====
-- `shift` as a whole: whatever it scatters, the wheel stores the same events and fits the new time.
use rskynet.Base.{
  ℕ, zero, suc, ◌+◌, ◌%◌, ◌≤◌, ◌<◌, ◌≡◌, ◌≢◌, refl, sym, subst, ◌∙◌, arith, u64_mod, ◌⊎◌, inl, inr,
  false, List, [], ◌∷◌, some, get_elem?, Bool-cases, shr, low_bits, ◌==◌, wrapping_add,
}
use rskynet.Timer.Wheel.{
  Wheel, TimerEvent, forget, re_add, move_list, cascade, settle, shift, time_levels,
  time_near_shift, time_level_shift,
}
use rskynet.Timer.Wheel.Ticks.{above, Carries, no_carry_through, above-suc_lem, above-zero}
use rskynet.Timer.Wheel.Place.{Bucket, near_bucket, level_bucket, Bucket-cases, bucket, set_bucket}
use rskynet.Timer.Wheel.Inv.{At, Stored, Inv, Inv-ext}
use rskynet.Timer.Wheel.Moves.{
  bucket-IsDistinct, taken, taken-At, taken-At_inv, taken-Inv, bucket-forget, time-forget,
  locations-forget,
}
use rskynet.Timer.Wheel.Scatter.{Ahead, re_add-Inv}
use rskynet.Timer.Wheel.Contents.{
  re_add-Stored_old, re_add-Stored_new, re_add-Stored_inv, time-re_add,
}
use rskynet.Timer.Wheel.Shift.{
  at_time, bucket-at_time, at_time-Inv, now_bucket, not_due, refit_still, refit_carry,
}

-- The wheel one tick later, with the same events.
pub record Shifted (w u : Wheel) : Type 0 where
  pub inv : Inv u
  pub ticked : u.time ≡ suc w.time
  pub keeps : (e : TimerEvent) → Stored w e → Stored u e
  pub adds_none : (e : TimerEvent) → Stored u e → Stored w e

Ahead-intro :
    (t : ℕ) (es : List TimerEvent)
    → ((i : ℕ) (e : TimerEvent) → get_elem? es i ≡ some e → (t ≤ e.expire) × (e.expire < u64_mod))
    → Ahead t es
Ahead-intro t [] h = tt
Ahead-intro t (e ∷ es) h = (h 0 e refl, Ahead-intro t es (λ i x. h (suc i) x))

module _ (w : Wheel) (v : Inv w) (empty : bucket w (now_bucket w) ≡ [])
    (small : suc w.time < u64_mod) where
  ahead :
      (b : Bucket) (i : ℕ) (e : TimerEvent)
      → At w b i e
      → (suc w.time ≤ e.expire) × (e.expire < u64_mod)
  ahead b i e at = (not_due w b i e v empty at, (v.placed b i e at).in_word)

  still-Shifted : suc w.time % 256 ≢ 0 → Shifted w (at_time w (suc w.time))
  still-Shifted ne = record {
    inv = at_time-Inv w (suc w.time) v small λ b i e at. record {
      fits = refit_still w.time b e ne (v.placed b i e at).fits;
      ahead = (ahead b i e at).0;
      in_word = (ahead b i e at).1;
    };
    ticked = refl;
    keeps = λ e s. (s.0, s.1, rw (bucket-at_time w (suc w.time) s.0) s.2);
    adds_none = λ e s. (s.0, s.1, rw (bucket-at_time w (suc w.time) s.0) at s.2);
  }

  module _ (l : ℕ) (carry : Carries l (suc w.time)) (stop : above l (suc w.time) % 64 ≢ 0) where
    abbrev scattered : Bucket
    scattered = level_bucket l (above l (suc w.time) % 64)

    abbrev emptied : Wheel
    emptied = set_bucket (at_time w (suc w.time)) scattered []

    bucket-emptied : (b : Bucket) → bucket emptied b ≡ bucket (taken w scattered) b
    bucket-emptied (near_bucket s) =
        sym (bucket-forget (set_bucket w scattered []) (bucket w scattered) (near_bucket s))
    bucket-emptied (level_bucket j s) =
        sym (bucket-forget (set_bucket w scattered []) (bucket w scattered) (level_bucket j s))

    rest-Inv : Inv (at_time (taken w scattered) (suc w.time))
    rest-Inv =
        at_time-Inv (taken w scattered) (suc w.time) (taken-Inv w scattered v) small λ b i e at.
          let (ne, old) = taken-At_inv w scattered b i e at in
          record {
            fits =
                refit_carry w.time l carry stop b e ne (ahead b i e old).0
                  (v.placed b i e old).fits;
            ahead = (ahead b i e old).0;
            in_word = (ahead b i e old).1;
          }

    forget-Inv : Inv (forget emptied (bucket w scattered))
    forget-Inv =
        Inv-ext (at_time (taken w scattered) (suc w.time)) (forget emptied (bucket w scattered))
          (time-forget emptied (bucket w scattered))
          (λ b.
            bucket-forget emptied (bucket w scattered) b
            ∙ bucket-emptied b
            ∙ sym (bucket-at_time (taken w scattered) (suc w.time) b))
          (λ k.
            locations-forget emptied (bucket w scattered) k
            ∙ sym (locations-forget (set_bucket w scattered []) (bucket w scattered) k))
          rest-Inv

    all-Ahead : Ahead (suc w.time) (bucket w scattered)
    all-Ahead = Ahead-intro (suc w.time) (bucket w scattered) (λ i e. ahead scattered i e)

    scatter-Shifted : Shifted w (move_list (at_time w (suc w.time)) l (above l (suc w.time) % 64))
    unfolding move_list
    scatter-Shifted = record {
      inv =
          re_add-Inv emptied (bucket w scattered) (bucket-IsDistinct w scattered v) all-Ahead
            forget-Inv;
      ticked = time-re_add emptied (bucket w scattered);
      keeps = λ e s. kept e s (Bucket-cases s.0 scattered);
      adds_none = λ e s. elim (re_add-Stored_inv emptied (bucket w scattered) e all-Ahead s) [
        | inr (i, at) ↦ (scattered, i, at)
        | inl (b, i, at) ↦ (b, i, (taken-At_inv w scattered b i e (rw (bucket-emptied b) at at)).1)
      ];
    }
      where
        kept :
            (e : TimerEvent) (s : Stored w e)
            → (s.0 ≡ scattered) ⊎ (s.0 ≢ scattered)
            → Stored (re_add emptied (bucket w scattered)) e
        kept e s (inl p) =
            re_add-Stored_new emptied (bucket w scattered) s.1 e all-Ahead
              (subst (λ b. At w b s.1 e) p s.2)
        kept e s (inr ne) =
            re_add-Stored_old emptied (bucket w scattered) e
              (s.0, s.1, rw (bucket-emptied s.0) (taken-At w scattered s.0 s.1 e ne s.2))

  cascade-Shifted :
      (rounds l : ℕ)
      → l + rounds ≡ time_levels
      → Carries l (suc w.time)
      → Shifted w (cascade rounds l (above l (suc w.time)) (at_time w (suc w.time)))
  unfolding cascade
  cascade-Shifted zero l sum carry =
      let e : l ≡ 10 = omega arith in
      absurd (
        no_carry_through (suc w.time) (omega arith) small
          (subst (λ k. Carries k (suc w.time)) e carry))
  cascade-Shifted (suc rounds) l sum carry = elim (Bool-cases (above l (suc w.time) % 64 == 0)) [
    | inl p ↦ rw p (
        subst
          (λ k. Shifted w (
            cascade rounds k (shr (above l (suc w.time)) time_level_shift)
              (at_time w (suc w.time))))
          (omega arith)
          (subst (λ x. Shifted w (cascade rounds (suc l) x (at_time w (suc w.time))))
            (above-suc_lem l (suc w.time))
            (cascade-Shifted rounds (suc l) (omega arith) (carry, ground arith))))
    | inr p ↦ rw p (scatter-Shifted l carry (ground arith))
  ]

  settle-Shifted : Shifted w (settle (at_time w (suc w.time)))
  unfolding settle
  settle-Shifted = elim (Bool-cases (low_bits (suc w.time) time_near_shift == 0)) [
    | inl p ↦
        rw (later, p)
          (subst (λ x. Shifted w (cascade time_levels 0 x (at_time w (suc w.time))))
            (above-zero (suc w.time)) (cascade-Shifted time_levels 0 (omega arith) (ground arith)))
    | inr p ↦ rw (later, p) (still-Shifted (ground arith))
  ]
    where
      later : (suc w.time == 0) ≡ false
      later = ground arith

  -- `shift`, at a wheel whose current slot is empty, moves the clock on by one tick, keeps the
  -- invariant, and neither loses an event nor makes one up.
  pub shift-Shifted : Shifted w (shift w)
  unfolding shift
  shift-Shifted =
      let next : suc w.time ≡ wrapping_add w.time 1 = omega arith in
      subst (λ t. Shifted w (settle (at_time w t))) next settle-Shifted
