-- ===== src/Timer/Wheel/Moves.antt =====
-- Taking a bucket out of the wheel, as `execute` and `move_list` do, and putting its events back.
use rskynet.Base.{
  ℕ, zero, suc, ◌≡◌, ◌≢◌, refl, ap, sym, subst, ◌∙◌, arith, inl, inr, Bool, true, false, ◌||◌, List,
  [], ◌∷◌, none, some, get_elem?, if◌then◌else◌, Bool-cases, some_inj, some_ne_none, true_ne_false,
}
use rskynet.Timer.Wheel.{Wheel, TimerEvent, TimerKey, key, same_key, set_location, forget}
use rskynet.Timer.Wheel.Place.{
  Bucket, Bucket-cases, bucket, set_bucket, location_of, location_of-injective, bucket-set_self,
  bucket-set_ne, locations-set_bucket, time-set_bucket, same_key_iff,
}
use rskynet.Timer.Wheel.Inv.{At, Inv, bucket-set_location}

-- Whether a key is that of an event of the list.
abbrev pub has_key : TimerKey → List TimerEvent → Bool
has_key k [] = false
has_key k (e ∷ es) = same_key k (key e) || has_key k es

pub locations-forget :
    (w : Wheel) (es : List TimerEvent) (k : TimerKey)
    → (forget w es).locations k ≡ (if has_key k es then none else w.locations k)
locations-forget w [] k = refl
locations-forget w (e ∷ es) k = ground (arith, locations-forget (set_location w (key e) none) es k)

pub bucket-forget :
    (w : Wheel) (es : List TimerEvent) (b : Bucket) → bucket (forget w es) b ≡ bucket w b
bucket-forget w [] b = refl
bucket-forget w (e ∷ es) b =
    bucket-forget (set_location w (key e) none) es b ∙ bucket-set_location w (key e) none b

pub time-forget : (w : Wheel) (es : List TimerEvent) → (forget w es).time ≡ w.time
time-forget w [] = refl
time-forget w (e ∷ es) = time-forget (set_location w (key e) none) es

pub has_key-at :
    (es : List TimerEvent) (i : ℕ) (e : TimerEvent)
    → get_elem? es i ≡ some e
    → has_key (key e) es ≡ true
has_key-at [] i e at = cc
has_key-at (x ∷ es) zero e at = ground arith
has_key-at (x ∷ es) (suc i) e at = ground (arith, has_key-at es i e at)

pub at-has_key :
    (es : List TimerEvent) (k : TimerKey)
    → has_key k es ≡ true
    → (i : ℕ) × (e : TimerEvent) × (get_elem? es i ≡ some e) × (key e ≡ k)
at-has_key [] k h = cc
at-has_key (x ∷ es) k h = elim (Bool-cases (same_key k (key x))) [
  | inl same ↦ (0, x, refl, sym ((same_key_iff k (key x)).0 same))
  | inr differ ↦ let (i, e, at, same) = at-has_key es k (rw differ at h) in (suc i, e, at, same)
]

-- No two events of the list have one key.
abbrev pub IsDistinct : List TimerEvent → Type 0
IsDistinct [] = Unit {0}
IsDistinct (e ∷ es) = (has_key (key e) es ≡ false) × IsDistinct es

abbrev KeysDiffer : List TimerEvent → Type 0
KeysDiffer es =
    (i j : ℕ) (x y : TimerEvent)
    → get_elem? es i ≡ some x
    → get_elem? es j ≡ some y
    → key x ≡ key y
    → i ≡ j

KeysDiffer-IsDistinct : (es : List TimerEvent) → KeysDiffer es → IsDistinct es
KeysDiffer-IsDistinct [] d = tt
KeysDiffer-IsDistinct (e ∷ es) d = (
  elim (Bool-cases (has_key (key e) es)) [
    | inr free ↦ free
    | inl used ↦
        let (j, y, at, same) = at-has_key es (key e) used in
        absurd (omega (arith, d 0 (suc j) e y refl at (sym same)))
  ],
  KeysDiffer-IsDistinct es λ i j x y p q same. omega (arith, d (suc i) (suc j) x y p q same),
)

pub bucket-IsDistinct : (w : Wheel) (b : Bucket) → Inv w → IsDistinct (bucket w b)
bucket-IsDistinct w b v = KeysDiffer-IsDistinct (bucket w b) λ i j x y p q same.
    (location_of-injective b b i j
      (some_inj (sym (v.indexed b i x p) ∙ ap w.locations same ∙ v.indexed b j y q))).1

-- A bucket taken out: its events are gone, with their locations.
abbrev pub taken : Wheel → Bucket → Wheel
taken w b = forget (set_bucket w b []) (bucket w b)

pub taken-At :
    (w : Wheel) (b c : Bucket) (i : ℕ) (e : TimerEvent) → c ≢ b → At w c i e → At (taken w b) c i e
taken-At w b c i e ne at =
    rw (bucket-forget (set_bucket w b []) (bucket w b) c ∙ bucket-set_ne w b c [] ne) at

pub taken-At_inv :
    (w : Wheel) (b c : Bucket) (i : ℕ) (e : TimerEvent)
    → At (taken w b) c i e
    → (c ≢ b) × At w c i e
taken-At_inv w b c i e at = elim (Bucket-cases c b) [
  | inr ne ↦
      (ne, rw (bucket-forget (set_bucket w b []) (bucket w b) c ∙ bucket-set_ne w b c [] ne) at at)
  | inl p ↦
      let gone : get_elem? {A = TimerEvent} [] i ≡ some e =
        rw (bucket-forget (set_bucket w b []) (bucket w b) b ∙ bucket-set_self w b []) at
          (subst (λ d. At (taken w b) d i e) p at) in
      absurd (some_ne_none (sym gone))
]

pub taken-Inv : (w : Wheel) (b : Bucket) → Inv w → Inv (taken w b)
taken-Inv w b v = record {
  placed = λ c i e at.
      let (ne, old) = taken-At_inv w b c i e at in
      rw (time-forget (set_bucket w b []) (bucket w b) ∙ time-set_bucket w b [])
        (v.placed c i e old);
  indexed = λ c i e at.
      let (ne, old) = taken-At_inv w b c i e at in
      rw (locations-forget (set_bucket w b []) (bucket w b) (key e), other c i e ne old)
        (ap (λ f. f (key e)) (locations-set_bucket w b []) ∙ v.indexed c i e old);
  located = λ k c i l. found k c i l;
  clock = rw (time-forget (set_bucket w b []) (bucket w b) ∙ time-set_bucket w b []) v.clock;
}
  where
    other :
        (c : Bucket) (i : ℕ) (e : TimerEvent)
        → c ≢ b
        → At w c i e
        → has_key (key e) (bucket w b) ≡ false
    other c i e ne old = elim (Bool-cases (has_key (key e) (bucket w b))) [
      | inr free ↦ free
      | inl used ↦
          let (j, y, at, same) = at-has_key (bucket w b) (key e) used in
          absurd (
            ne
              (location_of-injective c b i j (
                some_inj
                  (sym (v.indexed c i e old) ∙ ap w.locations (sym same) ∙ v.indexed b j y at))).0)
    ]

    found :
        (k : TimerKey) (c : Bucket) (i : ℕ)
        → (taken w b).locations k ≡ some (location_of c i)
        → (e : TimerEvent) × At (taken w b) c i e × (key e ≡ k)
    found k c i l = elim (Bool-cases (has_key k (bucket w b))) [
      | inl used ↦
          absurd
            (some_ne_none (sym l ∙ locations-forget (set_bucket w b []) (bucket w b) k ∙ rw used))
      | inr free ↦
          let kept : (set_bucket w b []).locations k ≡ some (location_of c i) =
            sym (locations-forget (set_bucket w b []) (bucket w b) k ∙ rw free) ∙ l in
          let (e, at, same) =
            v.located k c i (sym (ap (λ f. f k) (locations-set_bucket w b [])) ∙ kept) in
          let ne : c ≢ b = λ p. true_ne_false (
            sym (has_key-at (bucket w b) i e (subst (λ d. At w d i e) p at))
            ∙ ap (λ j. has_key j (bucket w b)) same
            ∙ free) in
          (e, taken-At w b c i e ne at, same)
    ]
