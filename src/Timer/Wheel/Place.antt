-- ===== src/Timer/Wheel/Place.antt =====
-- Where an event belongs. A bucket is a slot of the near wheel or of a level; the wheel's methods
-- are read through two operations on buckets, whatever their kind.
use native.Mathlib.Decide.{ℕ_discrete}
use native.Mathlib.Numerals.{add-one}
use rskynet.Base.{
  ℕ, zero, suc, ◌+◌, ◌*◌, ◌%◌, ◌<◌, ◌≡◌, ◌≢◌, refl, ap, sym, ◌∙◌, arith, shr, u64_mod, ◌⊎◌, inl,
  inr, ◌↔◌, true, false, List, [], ◌∷◌, ◌++◌, Option, some, length, ◌==◌, if◌then◌else◌, Bool-cases,
  fill_low, low_bits, true_ne_false,
}
use rskynet.Timer.Wheel.{
  time_near_shift, time_level_shift, time_levels, Wheel, TimerEvent, TimerKey, key, Location,
  near_at, level_at, same_key, set_near, set_level, set_location, select_level, place, same_round,
}
use rskynet.Timer.Wheel.Ticks.{above, shr-above, above_top, near_round, far_round, digit-above}

pub data Bucket : Type 0 where
  near_bucket : ℕ → Bucket
  level_bucket : ℕ → ℕ → Bucket

Bucket-discrete : Discrete Bucket
Bucket-discrete = hlevel ℕ_discrete

pub Bucket-cases : (b c : Bucket) → (b ≡ c) ⊎ (b ≢ c)
Bucket-cases b c = elim (Bucket-discrete b c) [ yes p ↦ inl p | no q ↦ inr q ]

abbrev pub bucket : Wheel → Bucket → List TimerEvent
bucket w (near_bucket s) = w.near s
bucket w (level_bucket l s) = w.levels l s

abbrev pub set_bucket : Wheel → Bucket → List TimerEvent → Wheel
set_bucket w (near_bucket s) es = set_near w s es
set_bucket w (level_bucket l s) es = set_level w l s es

abbrev pub location_of : Bucket → ℕ → Location
location_of (near_bucket s) i = near_at s i
location_of (level_bucket l s) i = level_at l s i

pub location_of-injective :
    (b c : Bucket) (i j : ℕ) → location_of b i ≡ location_of c j → (b ≡ c) × (i ≡ j)
location_of-injective (near_bucket s) (near_bucket t) i j e = ground arith
location_of-injective (near_bucket s) (level_bucket m t) i j e = cc
location_of-injective (level_bucket l s) (near_bucket t) i j e = cc
location_of-injective (level_bucket l s) (level_bucket m t) i j e = ground arith

pub bucket-set_self :
    (w : Wheel) (b : Bucket) (es : List TimerEvent) → bucket (set_bucket w b es) b ≡ es
bucket-set_self w (near_bucket s) es = ground arith
bucket-set_self w (level_bucket l s) es = ground arith

pub bucket-set_ne :
    (w : Wheel) (b c : Bucket) (es : List TimerEvent)
    → c ≢ b
    → bucket (set_bucket w b es) c ≡ bucket w c
bucket-set_ne w (near_bucket s) (near_bucket t) es ne =
    ground (arith, λ (e : t ≡ s). ne (ap near_bucket e))
bucket-set_ne w (near_bucket s) (level_bucket m t) es ne = refl
bucket-set_ne w (level_bucket l s) (near_bucket t) es ne = refl
bucket-set_ne w (level_bucket l s) (level_bucket m t) es ne = ground arith

pub locations-set_bucket :
    (w : Wheel) (b : Bucket) (es : List TimerEvent) → (set_bucket w b es).locations ≡ w.locations
locations-set_bucket w (near_bucket s) es = refl
locations-set_bucket w (level_bucket l s) es = refl

pub time-set_bucket :
    (w : Wheel) (b : Bucket) (es : List TimerEvent) → (set_bucket w b es).time ≡ w.time
time-set_bucket w (near_bucket s) es = refl
time-set_bucket w (level_bucket l s) es = refl

pub same_key_iff : (a b : TimerKey) → (same_key a b ≡ true) ↔ (a ≡ b)
same_key_iff a b = ground arith

pub locations-set_self :
    (w : Wheel) (k : TimerKey) (o : Option Location) → (set_location w k o).locations k ≡ o
locations-set_self w k o = ground arith

pub locations-set_ne :
    (w : Wheel) (k j : TimerKey) (o : Option Location)
    → j ≢ k
    → (set_location w k o).locations j ≡ w.locations j
locations-set_ne w k j o ne = ground (arith, same_key_iff j k)

-- Where the wheel at `time` keeps an event: near, if it is due in the current round of 256 ticks;
-- else on the lowest level whose current round contains it, in the slot of its digit there.
abbrev pub Fits : ℕ → Bucket → TimerEvent → Type 0
Fits time (near_bucket s) e = (above 0 e.expire ≡ above 0 time) × (s ≡ e.expire % 256)
Fits time (level_bucket l s) e =
    (l < time_levels)
    × (above (suc l) e.expire ≡ above (suc l) time)
    × (above l e.expire ≢ above l time)
    × (s ≡ above l e.expire % 64)

-- The bucket to which `add` brings an event.
abbrev pub home : ℕ → TimerEvent → Bucket
home time e =
    if fill_low e.expire time_near_shift == fill_low time time_near_shift
    then near_bucket (low_bits e.expire time_near_shift)
    else level_bucket (select_level time_levels 0 e.expire time) (
        low_bits
          (shr e.expire
            (time_near_shift + select_level time_levels 0 e.expire time * time_level_shift))
          time_level_shift)

-- An event at the end of a bucket, with its location.
abbrev pub push : Wheel → Bucket → TimerEvent → Wheel
push w b e =
    set_location (set_bucket w b (bucket w b ++ e ∷ [])) (key e)
      (some (location_of b (length (bucket w b))))

pub place-push : (w : Wheel) (e : TimerEvent) → place w e ≡ push w (home w.time e) e
unfolding place
place-push w e =
    elim (Bool-cases (fill_low e.expire time_near_shift == fill_low w.time time_near_shift)) [
      | inl p ↦ rw p
      | inr p ↦ rw p
    ]

same_round-eq :
    (l x c : ℕ)
    → x < u64_mod
    → c < u64_mod
    → l < time_levels
    → same_round l x c ≡ true
    → above (suc l) x ≡ above (suc l) c
unfolding same_round
same_round-eq l x c hx hc hl p = ground (arith, shr-above (suc l) x, shr-above (suc l) c, top)
  where
    top : l ≡ 9 → above (suc l) x ≡ above (suc l) c
    top e = rw e (above_top x hx ∙ sym (above_top c hc))

same_round-ne : (l x c : ℕ) → same_round l x c ≡ false → above (suc l) x ≢ above (suc l) c
unfolding same_round
same_round-ne l x c p e = ground (arith, shr-above (suc l) x, shr-above (suc l) c)

-- The level that the loop of `add` finds is the lowest whose current round holds the event.
pub select_level_lem :
    (rounds level x c : ℕ)
    → x < u64_mod
    → c < u64_mod
    → level + rounds ≡ time_levels
    → above level x ≢ above level c
    → let l = select_level rounds level x c in
      (l < time_levels) × (above (suc l) x ≡ above (suc l) c) × (above l x ≢ above l c)
unfolding select_level
select_level_lem zero level x c hx hc sum ne =
    let e : level ≡ 10 = omega arith in absurd (ne (rw e (above_top x hx ∙ sym (above_top c hc))))
select_level_lem (suc rounds) level x c hx hc sum ne = elim (Bool-cases (same_round level x c)) [
  | inl p ↦ rw p (omega arith, same_round-eq level x c hx hc (omega arith) p, ne)
  | inr p ↦ rw p (select_level_lem rounds (level + 1) x c hx hc (omega arith) (next p))
]
  where
    next : same_round level x c ≡ false → above (level + 1) x ≢ above (level + 1) c
    next p = rw add-one (same_round-ne level x c p)

-- The bucket that `add` chooses is the one where the event belongs.
pub home-Fits :
    (w : Wheel) (e : TimerEvent)
    → e.expire < u64_mod
    → w.time < u64_mod
    → Fits w.time (home w.time e) e
home-Fits w e hx hc =
    elim (Bool-cases (fill_low e.expire time_near_shift == fill_low w.time time_near_shift)) [
      | inl p ↦ rw p (near_round e.expire w.time p, refl)
      | inr p ↦
          let (hl, eq, ne) =
            select_level_lem time_levels 0 e.expire w.time hx hc (omega arith)
              (far_round e.expire w.time p) in
          rw p (hl, eq, ne, digit-above (select_level time_levels 0 e.expire w.time) e.expire)
    ]

pub TimerKey-cases : (a b : TimerKey) → (a ≡ b) ⊎ (a ≢ b)
TimerKey-cases a b = elim (Bool-cases (same_key a b)) [
  | inl p ↦ inl ((same_key_iff a b).0 p)
  | inr p ↦ inr (λ e. true_ne_false (sym ((same_key_iff a b).1 e) ∙ p))
]
