-- ===== src/Timer/Wheel/Removed.antt =====
-- What a removal by `cancel` leaves at each position and in the index of locations.
use native.Mathlib.Decide.{dec_lt, ℕ_discrete}
use rskynet.Base.{
  ℕ, ◌≤◌, ◌<◌, ◌≡◌, ◌≢◌, refl, ap, sym, subst, ◌∙◌, arith, ◌⊎◌, inl, inr, List, Option, none, some,
  get_elem?, length, some_inj, some_ne_none, lt_of_get_elem?,
}
use rskynet.Timer.Wheel.{
  Wheel, TimerEvent, TimerKey, key, set_location, swap_remove, relocate, cancel,
}
use rskynet.Timer.Wheel.Place.{
  Bucket, near_bucket, level_bucket, Bucket-cases, bucket, set_bucket, location_of,
  location_of-injective, bucket-set_self, bucket-set_ne, locations-set_bucket, locations-set_self,
  locations-set_ne,
}
use rskynet.Timer.Wheel.Inv.{At, Inv}
use rskynet.Timer.Wheel.Remove.{
  last_index, last_exists, swap_remove-other, swap_remove-here, swap_remove-end,
}

-- What `cancel` does to a timer that is stored at `b`, `i`.
abbrev pub removed : Wheel → TimerKey → Bucket → ℕ → Wheel
removed w k b i =
    let rest = swap_remove (bucket w b) i in
    relocate (set_bucket (set_location w k none) b rest) (get_elem? rest i) (location_of b i)

pub cancel_stored :
    (w : Wheel) (k : TimerKey) (b : Bucket) (i : ℕ)
    → w.locations k ≡ some (location_of b i)
    → cancel w k ≡ removed w k b i
unfolding cancel
cancel_stored w k (near_bucket s) i e = rw (e, cancel)
cancel_stored w k (level_bucket l s) i e = rw (e, cancel)

-- A cancelled key has no timer: nothing changes.
pub cancel_absent : (w : Wheel) (k : TimerKey) → w.locations k ≡ none → cancel w k ≡ w
unfolding cancel
cancel_absent w k e = rw (e, cancel)

-- What `cancel` leaves in the buckets and in the index of locations.
module _ (w : Wheel) (k : TimerKey) (b : Bucket) (i : ℕ) (e : TimerEvent) (v : Inv w)
    (at : At w b i e) (named : key e ≡ k) where
  abbrev pub rest : List TimerEvent
  rest = swap_remove (bucket w b) i

  pub inside : i < length (bucket w b)
  inside = lt_of_get_elem? (bucket w b) i e at

  bucket-removed : (c : Bucket) → bucket (removed w k b i) c ≡ bucket (set_bucket w b rest) c
  bucket-removed c = go (get_elem? rest i) c b
    where
      go :
          (o : Option TimerEvent) (c d : Bucket)
          → bucket (relocate (set_bucket (set_location w k none) d rest) o (location_of b i)) c
            ≡ bucket (set_bucket w d rest) c
      go none (near_bucket s) (near_bucket t) = refl
      go none (near_bucket s) (level_bucket m t) = refl
      go none (level_bucket l s) (near_bucket t) = refl
      go none (level_bucket l s) (level_bucket m t) = refl
      go (some x) (near_bucket s) (near_bucket t) = refl
      go (some x) (near_bucket s) (level_bucket m t) = refl
      go (some x) (level_bucket l s) (near_bucket t) = refl
      go (some x) (level_bucket l s) (level_bucket m t) = refl

  abbrev pub n : ℕ
  n = last_index (bucket w b) i inside

  -- The position of an event that `cancel` leaves alone.
  abbrev pub Kept : Bucket → ℕ → Type 0
  Kept c j = (c ≢ b) ⊎ ((c ≡ b) × (j ≢ i) × (j < n))

  pub removed-At-Kept :
      (c : Bucket) (j : ℕ) (x : TimerEvent) → Kept c j → At w c j x → At (removed w k b i) c j x
  removed-At-Kept c j x (inl ne) h = rw (bucket-removed c ∙ bucket-set_ne w b c rest ne) h
  removed-At-Kept c j x (inr (p, ne, lt)) h =
      subst (λ d. At (removed w k b i) d j x) (sym p)
        (rw (bucket-removed b ∙ bucket-set_self w b rest)
          (swap_remove-other (bucket w b) i inside j lt ne ∙ subst (λ d. At w d j x) p h))

  pub removed-At_moved : (x : TimerEvent) → i < n → At w b n x → At (removed w k b i) b i x
  removed-At_moved x lt h =
      rw (bucket-removed b ∙ bucket-set_self w b rest)
        (swap_remove-here (bucket w b) i inside x h lt)

  pub removed-At_cases :
      (c : Bucket) (j : ℕ) (x : TimerEvent)
      → At (removed w k b i) c j x
      → (Kept c j × At w c j x) ⊎ ((c ≡ b) × (j ≡ i) × (i < n) × At w b n x)
  removed-At_cases c j x h = elim (Bucket-cases c b) [
    | inr ne ↦ inl (inl ne, rw (bucket-removed c ∙ bucket-set_ne w b c rest ne) at h)
    | inl p ↦
        let here : get_elem? rest j ≡ some x =
          rw (bucket-removed b ∙ bucket-set_self w b rest) at
            (subst (λ d. At (removed w k b i) d j x) p h) in
        elim (dec_lt j n) [
          | no end ↦
              absurd
                (some_ne_none (sym here ∙ swap_remove-end (bucket w b) i inside j (omega arith)))
          | yes lt ↦ elim (ℕ_discrete j i) [
            | no ne ↦ inl (
              inr (p, ne, lt),
              subst (λ d. At w d j x) (sym p)
                  (sym (swap_remove-other (bucket w b) i inside j lt ne) ∙ here),
            )
            | yes q ↦
                let (m, em) = last_exists (bucket w b) i inside in
                let same : m ≡ x = some_inj (
                  sym (swap_remove-here (bucket w b) i inside m em (omega arith))
                  ∙ subst (λ y. get_elem? rest y ≡ some x) q here) in
                inr (p, q, omega arith, subst (At w b n) same em)
          ]
        ]
  ]

  -- Two stored events with one key stand at one position.
  pub same_position :
      (c d : Bucket) (j l : ℕ) (x y : TimerEvent)
      → At w c j x
      → At w d l y
      → key x ≡ key y
      → (c ≡ d) × (j ≡ l)
  same_position c d j l x y hx hy same =
      location_of-injective c d j l
        (some_inj (sym (v.indexed c j x hx) ∙ ap w.locations same ∙ v.indexed d l y hy))

  pub Kept-ne : (c : Bucket) (j : ℕ) (x : TimerEvent) → Kept c j → At w c j x → key x ≢ k
  Kept-ne c j x (inl ne) h same = ne (same_position c b j i x e h at (same ∙ sym named)).0
  Kept-ne c j x (inr (p, ne, lt)) h same = ne (same_position c b j i x e h at (same ∙ sym named)).1

  pub moved-ne : (m : TimerEvent) → i < n → At w b n m → key m ≢ k
  moved-ne m lt h same =
      absurd (omega (arith, (same_position b b n i m e h at (same ∙ sym named)).1))

  -- The locations after a removal from the end, and from before it.
  locations-end : n ≤ i → (j : TimerKey) → j ≢ k → (removed w k b i).locations j ≡ w.locations j
  locations-end le j ne =
      ap
        (λ o.
          (relocate (set_bucket (set_location w k none) b rest) o (location_of b i)).locations j)
        (swap_remove-end (bucket w b) i inside i le)
      ∙ ap (λ f. f j) (locations-set_bucket (set_location w k none) b rest)
      ∙ locations-set_ne w k j none ne

  abbrev after_move : TimerEvent → Wheel
  after_move m =
      set_location (set_bucket (set_location w k none) b rest) (key m) (some (location_of b i))

  locations-move :
      (m : TimerEvent) → i < n → At w b n m → (removed w k b i).locations ≡ (after_move m).locations
  locations-move m lt h =
      ap (λ o. (relocate (set_bucket (set_location w k none) b rest) o (location_of b i)).locations)
        (swap_remove-here (bucket w b) i inside m h lt)

  locations-other :
      (m : TimerEvent) (j : TimerKey)
      → i < n
      → At w b n m
      → j ≢ k
      → j ≢ key m
      → (removed w k b i).locations j ≡ w.locations j
  locations-other m j lt h ne nm =
      ap (λ f. f j) (locations-move m lt h)
      ∙ locations-set_ne (set_bucket (set_location w k none) b rest) (key m) j
          (some (location_of b i)) nm
      ∙ ap (λ f. f j) (locations-set_bucket (set_location w k none) b rest)
      ∙ locations-set_ne w k j none ne

  pub locations-moved :
      (m : TimerEvent)
      → i < n
      → At w b n m
      → (removed w k b i).locations (key m) ≡ some (location_of b i)
  locations-moved m lt h =
      ap (λ f. f (key m)) (locations-move m lt h)
      ∙ locations-set_self (set_bucket (set_location w k none) b rest) (key m)
          (some (location_of b i))

  pub locations-cancelled : (removed w k b i).locations k ≡ none
  locations-cancelled = elim (dec_lt i n) [
    | yes lt ↦
        let (m, h) = last_exists (bucket w b) i inside in
        ap (λ f. f k) (locations-move m lt h)
        ∙ locations-set_ne (set_bucket (set_location w k none) b rest) (key m) k
            (some (location_of b i)) (λ same. moved-ne m lt h (sym same))
        ∙ ap (λ f. f k) (locations-set_bucket (set_location w k none) b rest)
        ∙ locations-set_self w k none
    | no end ↦
        ap
          (λ o.
            (relocate (set_bucket (set_location w k none) b rest) o (location_of b i)).locations k)
          (swap_remove-end (bucket w b) i inside i (omega arith))
        ∙ ap (λ f. f k) (locations-set_bucket (set_location w k none) b rest)
        ∙ locations-set_self w k none
  ]

  -- A key other than the cancelled one and the moved one keeps its location.
  pub locations-kept :
      (j : TimerKey)
      → j ≢ k
      → ((m : TimerEvent) → i < n → At w b n m → j ≢ key m)
      → (removed w k b i).locations j ≡ w.locations j
  locations-kept j ne other = elim (dec_lt i n) [
    | yes lt ↦
        let (m, h) = last_exists (bucket w b) i inside in locations-other m j lt h ne (other m lt h)
    | no end ↦ locations-end (omega arith) j ne
  ]
