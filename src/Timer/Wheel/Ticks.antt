-- ===== src/Timer/Wheel/Ticks.antt =====
-- The digits of a tick that the wheel goes by: 8 bits for the near wheel, then 6 for each level.
use native.Mathlib.Nat.{div-div-eq-div-mul}
use native.Mathlib.Numerals.{towards_suc}
use native.Mathlib.Decide.{dec_le}
use rskynet.Base.{
  ℕ, zero, suc, ◌+◌, ◌-◌, ◌*◌, ◌/◌, ◌%◌, ◌^◌, ◌≤◌, ◌<◌, ◌≡◌, ◌≢◌, refl, ap, sym, ◌∙◌, arith, shr,
  u64_mod, fill_low, low_bits, ◌==◌, true, false,
}
use rskynet.Timer.Wheel.{time_near_shift, time_level_shift}

-- What is left of a tick above the digits of the levels below `k`.
pub above : ℕ → ℕ → ℕ
above zero x = x / 256
above (suc k) x = above k x / 64

pow_add_six : (n : ℕ) → 2 ^ (n + 6) ≡ 2 ^ n * 64
pow_add_six n = simp towards_suc (omega arith)

pub shr-above : (k x : ℕ) → shr x (time_near_shift + k * time_level_shift) ≡ above k x
unfolding above
shr-above zero x = refl
shr-above (suc k) x =
    ap (λ n. x / 2 ^ n) (omega arith)
    ∙ ap (λ n. x / n) (pow_add_six (8 + k * 6))
    ∙ sym (div-div-eq-div-mul x (2 ^ (8 + k * 6)) 64)
    ∙ ap (λ n. n / 64) (shr-above k x)

pub above_mono : (k x y : ℕ) → x ≤ y → above k x ≤ above k y
unfolding above
above_mono zero x y h = omega arith
above_mono (suc k) x y h = omega (arith, above_mono k x y h)

-- Equal from one level on, equal from every level above it.
pub above-suc : (k x y : ℕ) → above k x ≡ above k y → above (suc k) x ≡ above (suc k) y
unfolding above
above-suc k x y e = ap (λ n. n / 64) e

pub above_up : (n k x y : ℕ) → above k x ≡ above k y → above (n + k) x ≡ above (n + k) y
above_up zero k x y e = ap (λ m. above m x) (omega arith) ∙ e ∙ ap (λ m. above m y) (omega arith)
above_up (suc n) k x y e =
    ap (λ m. above m x) (omega arith)
    ∙ above-suc (n + k) x y (above_up n k x y e)
    ∙ ap (λ m. above m y) (omega arith)

pub above_le_up : (j k x y : ℕ) → j ≤ k → above j x ≡ above j y → above k x ≡ above k y
above_le_up j k x y h e =
    ap (λ m. above m x) (omega arith) ∙ above_up (k - j) j x y e ∙ ap (λ m. above m y) (omega arith)

-- Ten levels cover every 64-bit tick.
pub above_top : (x : ℕ) → x < u64_mod → above 10 x ≡ 0
unfolding above
above_top x h = omega arith

-- The digit at every level below `l` is 0, and so are the 8 bits below them.
abbrev pub Carries : ℕ → ℕ → Type 0
Carries zero x = x % 256 ≡ 0
Carries (suc l) x = Carries l x × (above l x % 64 ≡ 0)

-- A tick that carries through the levels below `l` moves the part above them on by one.
pub above_carry : (l c : ℕ) → Carries l (suc c) → above l (suc c) ≡ suc (above l c)
unfolding above
above_carry zero c h = omega arith
above_carry (suc l) c h = omega (arith, above_carry l c h.0, h.1)

pub Carries-down : (j l x : ℕ) → j ≤ l → Carries l x → Carries j x
Carries-down j zero x h c = let e : j ≡ 0 = omega arith in rw e c
Carries-down j (suc l) x h c = elim (dec_le j l) [
  | yes le ↦ Carries-down j l x le c.0
  | no lt ↦ let e : j ≡ suc l = omega arith in rw e c
]

-- The level whose digit is not 0 stops the carry: the part above it stands still.
pub above_stop :
    (l c : ℕ)
    → Carries l (suc c)
    → above l (suc c) % 64 ≢ 0
    → above (suc l) (suc c) ≡ above (suc l) c
unfolding above
above_stop l c h ne = omega (arith, above_carry l c h)

-- No carry out of the 8 lowest bits: nothing above them moves.
pub above_still : (k c : ℕ) → suc c % 256 ≢ 0 → above k (suc c) ≡ above k c
above_still k c ne = above_le_up 0 k (suc c) c (omega arith) (still c ne)
  where
    still : (c : ℕ) → suc c % 256 ≢ 0 → above 0 (suc c) ≡ above 0 c
    still c ne = unfold above in omega arith

-- A tick that carries through all ten levels is a multiple of 2^68.
pub no_carry_through : (x : ℕ) → 0 < x → x < u64_mod → Carries 10 x → ⊥
unfolding above
no_carry_through x pos small h = omega arith

-- The test of `add` for the near wheel compares what is above the 8 lowest bits.
pub near_round :
    (x c : ℕ)
    → (fill_low x time_near_shift == fill_low c time_near_shift) ≡ true
    → above 0 x ≡ above 0 c
unfolding above
near_round x c h = ground arith

pub far_round :
    (x c : ℕ)
    → (fill_low x time_near_shift == fill_low c time_near_shift) ≡ false
    → above 0 x ≢ above 0 c
unfolding above
far_round x c h e = ground arith

pub digit-above :
    (l x : ℕ)
    → low_bits (shr x (time_near_shift + l * time_level_shift)) time_level_shift ≡ above l x % 64
digit-above l x = ap (λ n. n % 64) (shr-above l x)

-- In the current near round an event's slot is the current one exactly if it is due now.
pub near_due : (x c : ℕ) → above 0 x ≡ above 0 c → x % 256 ≡ c % 256 → x ≡ c
unfolding above
near_due x c h e = omega arith

pub above-suc_lem : (l x : ℕ) → above (suc l) x ≡ shr (above l x) time_level_shift
unfolding above
above-suc_lem l x = refl

pub above-zero : (x : ℕ) → above 0 x ≡ shr x time_near_shift
unfolding above
above-zero x = refl
