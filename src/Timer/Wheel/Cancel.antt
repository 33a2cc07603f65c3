-- ===== src/Timer/Wheel/Cancel.antt =====
-- `cancel`: the timer of the key is gone, all others stay, and the index of locations stays exact.
use native.Mathlib.Decide.{dec_lt}
use rskynet.Base.{
  ℕ, ◌<◌, ◌≡◌, ◌≢◌, refl, ap, ap₂, sym, subst, ◌∙◌, arith, inl, inr, Option, none, some, length,
  Option-cases, some_inj, some_ne_none, lt_of_get_elem?,
}
use rskynet.Timer.Wheel.{
  Wheel, TimerEvent, TimerKey, key, Location, near_at, level_at, relocate, cancel, set_location,
}
use rskynet.Timer.Wheel.Place.{
  Bucket, near_bucket, level_bucket, Bucket-cases, bucket, location_of, location_of-injective,
  TimerKey-cases, set_bucket, time-set_bucket,
}
use rskynet.Timer.Wheel.Inv.{At, Stored, Placed, Inv}
use rskynet.Timer.Wheel.Remove.{last_exists}
use rskynet.Timer.Wheel.Removed.{
  removed, rest, n, Kept, inside, cancel_stored, cancel_absent, removed-At-Kept, removed-At_moved,
  removed-At_cases, same_position, Kept-ne, moved-ne, locations-moved, locations-cancelled,
  locations-kept,
}

-- What cancelling a key does.
pub record Cancelled (w : Wheel) (k : TimerKey) (u : Wheel) : Type 0 where
  pub inv : Inv u
  pub same_time : u.time ≡ w.time
  pub gone : u.locations k ≡ none
  pub keeps : (x : TimerEvent) → Stored w x → key x ≢ k → Stored u x
  pub adds_none : (x : TimerEvent) → Stored u x → Stored w x × (key x ≢ k)

time-relocate : (w : Wheel) (o : Option TimerEvent) (l : Location) → (relocate w o l).time ≡ w.time
time-relocate w none l = refl
time-relocate w (some e) l = refl

module _ (w : Wheel) (k : TimerKey) (b : Bucket) (i : ℕ) (e : TimerEvent) (v : Inv w)
    (at : At w b i e) (named : key e ≡ k) where
  abbrev u : Wheel
  u = removed w k b i

  abbrev last : ℕ
  last = n w k b i e v at named

  abbrev AtKept : Bucket → ℕ → Type 0
  AtKept = Kept w k b i e v at named

  time-removed : u.time ≡ w.time
  time-removed =
      time-relocate (set_bucket (set_location w k none) b (rest w k b i e v at named)) _
        (location_of b i)
      ∙ time-set_bucket (set_location w k none) b (rest w k b i e v at named)

  -- An event other than the moved one has another key than it.
  Kept-ne_moved :
      (c : Bucket) (j : ℕ) (x m : TimerEvent)
      → AtKept c j
      → At w c j x
      → i < last
      → At w b last m
      → key x ≢ key m
  Kept-ne_moved c j x m (inl ne) h lt hm same =
      ne (same_position w k b i e v at named c b j last x m h hm same).0
  Kept-ne_moved c j x m (inr (p, ne, below)) h lt hm same =
      absurd (omega (arith, (same_position w k b i e v at named c b j last x m h hm same).1))

  -- A position that is neither the cancelled nor the moved event's is kept.
  Kept_of_keys :
      (c : Bucket) (j : ℕ) (x : TimerEvent)
      → At w c j x
      → key x ≢ k
      → ((m : TimerEvent) → i < last → At w b last m → key x ≢ key m)
      → AtKept c j
  Kept_of_keys c j x h ne other = elim (Bucket-cases c b) [
    | inr off ↦ inl off
    | inl p ↦
        let hb : At w b j x = subst (λ d. At w d j x) p h in
        let not_i : j ≢ i =
          λ q. ne (ap key (some_inj (sym (subst (λ l. At w b l x) q hb) ∙ at)) ∙ named) in
        let in_range : j < length (bucket w b) = lt_of_get_elem? (bucket w b) j x hb in
        let i_in : i < length (bucket w b) = inside w k b i e v at named in
        let not_last : j ≢ last = λ q. elim (dec_lt i last) [
          | yes lt ↦ other x lt (subst (λ l. At w b l x) q hb) refl
          | no end ↦ not_i (omega arith)
        ] in
        inr (p, not_i, omega arith)
  ]

  found :
      (j : TimerKey) (c : Bucket) (l : ℕ)
      → u.locations j ≡ some (location_of c l)
      → (x : TimerEvent) × At u c l x × (key x ≡ j)
  found j c l loc = elim (TimerKey-cases j k) [
    | inl same ↦
        absurd
          (some_ne_none (sym loc ∙ ap u.locations same ∙ locations-cancelled w k b i e v at named))
    | inr ne ↦
        let (m, hm) = last_exists (bucket w b) i (inside w k b i e v at named) in
        elim (dec_lt i last) [
          | yes lt ↦ elim (TimerKey-cases j (key m)) [
            | inl is_m ↦
                let here : location_of b i ≡ location_of c l = some_inj (
                  sym (locations-moved w k b i e v at named m lt hm)
                  ∙ ap u.locations (sym is_m)
                  ∙ loc) in
                let (p, q) = location_of-injective b c i l here in
                (
                  m,
                  subst (λ d. At u d l m) p
                      (subst (λ o. At u b o m) q (removed-At_moved w k b i e v at named m lt hm)),
                  sym is_m,
                )
            | inr not_m ↦
                elsewhere j c l ne
                  (λ m' lt' hm' same. not_m (same ∙ ap key (some_inj (sym hm' ∙ hm)))) loc
          ]
          | no end ↦ elsewhere j c l ne (λ m' lt' hm' same. end lt') loc
        ]
  ]
    where
      elsewhere :
          (j : TimerKey) (c : Bucket) (l : ℕ)
          → j ≢ k
          → ((m : TimerEvent) → i < last → At w b last m → j ≢ key m)
          → u.locations j ≡ some (location_of c l)
          → (x : TimerEvent) × At u c l x × (key x ≡ j)
      elsewhere j c l ne other loc =
          let (x, hx, same) =
            v.located j c l (sym (locations-kept w k b i e v at named j ne other) ∙ loc) in
          (
            x,
            removed-At-Kept w k b i e v at named c l x
                (Kept_of_keys c l x hx (λ q. ne (sym same ∙ q))
                  (λ m lt hm q. other m lt hm (sym same ∙ q)))
                hx,
            same,
          )

  removed-Cancelled : Cancelled w k u
  removed-Cancelled = record {
    inv = record {
      placed = λ c j x h. rw time-removed (origin c j x h).0;
      indexed = λ c j x h. (origin c j x h).1;
      located = found;
      clock = rw time-removed v.clock;
    };
    same_time = time-removed;
    gone = locations-cancelled w k b i e v at named;
    keeps = λ x s ne. stays x s.0 s.1 s.2 ne;
    adds_none = λ x s. (origin s.0 s.1 x s.2).2;
  }
    where
      origin :
          (c : Bucket) (j : ℕ) (x : TimerEvent)
          → At u c j x
          → Placed w.time c x
            × (u.locations (key x) ≡ some (location_of c j))
            × (Stored w x × (key x ≢ k))
      origin c j x h = elim (removed-At_cases w k b i e v at named c j x h) [
        | inl (kept, old) ↦
            let ne = Kept-ne w k b i e v at named c j x kept old in
            (
              v.placed c j x old,
              locations-kept w k b i e v at named (key x) ne
                    (λ m lt hm. Kept-ne_moved c j x m kept old lt hm)
                  ∙ v.indexed c j x old,
              ((c, j, old), ne),
            )
        | inr (p, q, lt, hm) ↦ (
          rw p (v.placed b last x hm),
          locations-moved w k b i e v at named x lt hm
              ∙ ap₂ (λ d l. some (location_of d l)) (sym p) (sym q),
          ((b, last, hm), moved-ne w k b i e v at named x lt hm),
        )
      ]

      stays : (x : TimerEvent) (c : Bucket) (j : ℕ) → At w c j x → key x ≢ k → Stored u x
      stays x c j h ne =
          let (m, hm) = last_exists (bucket w b) i (inside w k b i e v at named) in
          elim (dec_lt i last) [
            | no end ↦ (
              c,
              j,
              removed-At-Kept w k b i e v at named c j x
                  (Kept_of_keys c j x h ne (λ m' lt' hm' same. end lt')) h,
            )
            | yes lt ↦ elim (TimerKey-cases (key x) (key m)) [
              | inr not_m ↦ (
                c,
                j,
                removed-At-Kept w k b i e v at named c j x
                    (Kept_of_keys c j x h ne
                      (λ m' lt' hm' same. not_m (same ∙ ap key (some_inj (sym hm' ∙ hm)))))
                    h,
              )
              | inl is_m ↦
                  let (p, q) = same_position w k b i e v at named c b j last x m h hm is_m in
                  let is_last : At w b last x =
                    subst (λ d. At w d last x) p (subst (λ l. At w c l x) q h) in
                  (b, i, removed-At_moved w k b i e v at named x lt is_last)
            ]
          ]

location-bucket : (l : Location) → (b : Bucket) × (i : ℕ) × (l ≡ location_of b i)
location-bucket (near_at s i) = (near_bucket s, i, refl)
location-bucket (level_at l s i) = (level_bucket l s, i, refl)

-- On a wheel with the invariant, cancelling a key removes its event, if it has one, and no other: every other event stays stored,
-- none is made up, the key has no location after it, the clock stands, and the invariant holds.
pub cancel-Cancelled : (w : Wheel) (k : TimerKey) → Inv w → Cancelled w k (cancel w k)
cancel-Cancelled w k v = elim (Option-cases (w.locations k)) [
  | inl absent ↦ rw (cancel_absent w k absent) record {
    inv = v;
    same_time = refl;
    gone = absent;
    keeps = λ x s ne. s;
    adds_none = λ x s.
        (s, λ same. some_ne_none (sym (v.indexed s.0 s.1 x s.2) ∙ ap w.locations same ∙ absent));
  }
  | inr (l, there) ↦
      let (b, i, is_l) = location-bucket l in
      let here = there ∙ ap some is_l in
      let (e, at, named) = v.located k b i here in
      rw (cancel_stored w k b i here) (removed-Cancelled w k b i e v at named)
]
