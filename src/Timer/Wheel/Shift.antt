-- ===== src/Timer/Wheel/Shift.antt =====
-- `shift`: the clock goes on by one tick, and the one bucket that no longer fits is scattered.
use native.Mathlib.Decide.{dec_lt}
use rskynet.Base.{
  ℕ, suc, ◌%◌, ◌≤◌, ◌<◌, ◌≡◌, ◌≢◌, refl, ap, sym, ap₂, subst, ◌∙◌, arith, u64_mod, [], some,
  get_elem?, some_ne_none,
}
use rskynet.Timer.Wheel.{Wheel, TimerEvent}
use rskynet.Timer.Wheel.Ticks.{
  above, above_mono, above_le_up, above_carry, Carries, Carries-down, above_stop, above_still,
}
use rskynet.Timer.Wheel.Place.{Bucket, near_bucket, level_bucket, bucket, Fits}
use rskynet.Timer.Wheel.Inv.{At, Placed, Inv}

-- The wheel at another time.
abbrev pub at_time : Wheel → ℕ → Wheel
at_time w t = record w { time = t }

pub bucket-at_time : (w : Wheel) (t : ℕ) (b : Bucket) → bucket (at_time w t) b ≡ bucket w b
bucket-at_time w t (near_bucket s) = refl
bucket-at_time w t (level_bucket l s) = refl

-- If what is stored fits the new time, the invariant holds at it.
pub at_time-Inv :
    (w : Wheel) (t : ℕ)
    → Inv w
    → t < u64_mod
    → ((b : Bucket) (i : ℕ) (e : TimerEvent) → At w b i e → Placed t b e)
    → Inv (at_time w t)
at_time-Inv w t v small fits = record {
  placed = λ b i e at. fits b i e (rw (bucket-at_time w t b) at at);
  indexed = λ b i e at. v.indexed b i e (rw (bucket-at_time w t b) at at);
  located =
      λ k b i l. let (e, at, same) = v.located k b i l in (e, rw (bucket-at_time w t b) at, same);
  clock = small;
}

-- The current slot of the near wheel.
abbrev pub now_bucket : Wheel → Bucket
now_bucket w = near_bucket (w.time % 256)

-- An event that is due stands in the current slot of the near wheel.
pub due_now :
    (time : ℕ) (b : Bucket) (e : TimerEvent)
    → Placed time b e
    → e.expire ≡ time
    → b ≡ near_bucket (time % 256)
due_now time (near_bucket s) e p due = ap near_bucket (p.fits.1 ∙ ap (λ n. n % 256) due)
due_now time (level_bucket l s) e p due = absurd (p.fits.2 (ap (above l) due))

-- Nothing is due once the current slot is empty.
pub not_due :
    (w : Wheel) (b : Bucket) (i : ℕ) (e : TimerEvent)
    → Inv w
    → bucket w (now_bucket w) ≡ []
    → At w b i e
    → w.time < e.expire
not_due w b i e v empty at = elim (dec_lt w.time e.expire) [
  | yes lt ↦ lt
  | no ge ↦
      let due : e.expire ≡ w.time = omega (arith, (v.placed b i e at).ahead) in
      let gone : get_elem? {A = TimerEvent} [] i ≡ some e =
        rw empty at (subst (λ c. At w c i e) (due_now w.time b e (v.placed b i e at) due) at) in
      absurd (some_ne_none (sym gone))
]

-- What is stored, off the bucket that is scattered, still fits when the clock goes on.
pub refit_still :
    (c : ℕ) (b : Bucket) (e : TimerEvent) → suc c % 256 ≢ 0 → Fits c b e → Fits (suc c) b e
refit_still c (near_bucket s) e ne fits = rw (above_still 0 c ne) fits
refit_still c (level_bucket l s) e ne fits = rw (above_still (suc l) c ne, above_still l c ne) fits

module _ (c l : ℕ) (carry : Carries l (suc c)) (stop : above l (suc c) % 64 ≢ 0) where
  -- No event ahead shares the old round of a level at or below the carry.
  left_behind : (j x : ℕ) → j ≤ l → suc c ≤ x → above j x ≢ above j c
  left_behind j x hj hx e =
      omega (arith, above_carry j c (Carries-down j l (suc c) hj carry), above_mono j (suc c) x hx)

  pub refit_carry :
      (b : Bucket) (e : TimerEvent)
      → b ≢ level_bucket l (above l (suc c) % 64)
      → suc c ≤ e.expire
      → Fits c b e
      → Fits (suc c) b e
  refit_carry (near_bucket s) e ne ahead fits =
      absurd (left_behind 0 e.expire (omega arith) ahead fits.0)
  refit_carry (level_bucket j s) e ne ahead fits = elim (dec_lt j l) [
    | yes below ↦ absurd (left_behind (suc j) e.expire (omega arith) ahead fits.1)
    | no here_or_above ↦ elim (dec_lt l j) [
      | yes upper ↦ (
        fits.0,
        fits.1 ∙ sym (same (suc j) (omega arith)),
        λ e'. fits.2 (e' ∙ same j (omega arith)),
        fits.3,
      )
      | no not_upper ↦
          let here : j ≡ l = omega arith in
          (
            fits.0,
            fits.1 ∙ sym (same (suc j) (omega arith)),
            λ e'. ne (
                ap₂ level_bucket here
                  (fits.3 ∙ ap (λ n. n % 64) e' ∙ ap (λ k. above k (suc c) % 64) here)),
            fits.3,
          )
    ]
  ]
    where
      same : (k : ℕ) → suc l ≤ k → above k (suc c) ≡ above k c
      same k h = above_le_up (suc l) k (suc c) c h (above_stop l c carry stop)
