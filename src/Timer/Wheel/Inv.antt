-- ===== src/Timer/Wheel/Inv.antt =====
-- The wheel's invariant, and that adding an event and emptying a bucket keep it.
use rskynet.Base.{
  ℕ, ◌≤◌, ◌<◌, ◌≡◌, ◌≢◌, refl, ap, sym, subst, ◌∙◌, arith, u64_mod, ◌⊎◌, inl, inr, true, false, [],
  ◌∷◌, ◌++◌, Option, none, some, get_elem?, length, Bool-cases, get_elem?-snoc_end,
  get_elem?-snoc_old, get_elem?-snoc_cases, some_inj, some_ne_none,
}
use rskynet.Timer.Wheel.{Wheel, TimerEvent, TimerKey, key, Location, same_key, set_location, new}
use rskynet.Timer.Wheel.Place.{
  Bucket, near_bucket, level_bucket, Bucket-cases, bucket, set_bucket, location_of,
  location_of-injective, bucket-set_self, bucket-set_ne, locations-set_bucket, time-set_bucket,
  same_key_iff, locations-set_self, locations-set_ne, Fits, push,
}

-- An event stands at a position of a bucket; it is stored if it stands somewhere.
abbrev pub At : Wheel → Bucket → ℕ → TimerEvent → Type 0
At w b i e = get_elem? (bucket w b) i ≡ some e

abbrev pub Stored : Wheel → TimerEvent → Type 0
Stored w e = (b : Bucket) × (i : ℕ) × At w b i e

-- An event belongs in its bucket, is not overdue, and its tick is a 64-bit word.
pub record Placed (time : ℕ) (b : Bucket) (e : TimerEvent) : Type 0 where
  pub fits : Fits time b e
  pub ahead : time ≤ e.expire
  pub in_word : e.expire < u64_mod

-- Every event is where it belongs, and the index of locations is exact.
pub record Inv (w : Wheel) : Type 0 where
  pub placed : (b : Bucket) (i : ℕ) (e : TimerEvent) → At w b i e → Placed w.time b e
  pub indexed :
      (b : Bucket) (i : ℕ) (e : TimerEvent)
      → At w b i e
      → w.locations (key e) ≡ some (location_of b i)
  pub located :
      (k : TimerKey) (b : Bucket) (i : ℕ)
      → w.locations k ≡ some (location_of b i)
      → (e : TimerEvent) × At w b i e × (key e ≡ k)
  pub clock : w.time < u64_mod

-- A wheel that stores nothing, at any time.
abbrev pub empty_at : ℕ → Wheel
empty_at t = record { time = t; near = λ s. []; levels = λ l s. []; locations = λ k. none }

pub empty_at-Inv : (t : ℕ) → t < u64_mod → Inv (empty_at t)
empty_at-Inv t small = record {
  placed = λ b i e at. absurd (nothing b i e at);
  indexed = λ b i e at. absurd (nothing b i e at);
  located = λ k b i e. absurd (some_ne_none (sym e));
  clock = small;
}
  where
    nothing : (b : Bucket) (i : ℕ) (e : TimerEvent) → At (empty_at t) b i e → ⊥
    nothing (near_bucket s) i e at = cc
    nothing (level_bucket l s) i e at = cc

pub new-Inv : Inv new
unfolding new
new-Inv = empty_at-Inv 0 (omega arith)

-- The location of the next event that is pushed to a bucket.
abbrev end_of : Wheel → Bucket → Option Location
end_of w b = some (location_of b (length (bucket w b)))

pub bucket-set_location :
    (w : Wheel) (k : TimerKey) (o : Option Location) (b : Bucket)
    → bucket (set_location w k o) b ≡ bucket w b
bucket-set_location w k o (near_bucket s) = refl
bucket-set_location w k o (level_bucket l s) = refl

-- What `push` leaves in each bucket.
pub bucket-push_self :
    (w : Wheel) (b : Bucket) (e : TimerEvent) → bucket (push w b e) b ≡ bucket w b ++ e ∷ []
bucket-push_self w b e =
    bucket-set_location (set_bucket w b (bucket w b ++ e ∷ [])) (key e) (end_of w b) b
    ∙ bucket-set_self w b (bucket w b ++ e ∷ [])

pub bucket-push_ne :
    (w : Wheel) (b c : Bucket) (e : TimerEvent) → c ≢ b → bucket (push w b e) c ≡ bucket w c
bucket-push_ne w b c e ne =
    bucket-set_location (set_bucket w b (bucket w b ++ e ∷ [])) (key e) (end_of w b) c
    ∙ bucket-set_ne w b c (bucket w b ++ e ∷ []) ne

pub time-push : (w : Wheel) (b : Bucket) (e : TimerEvent) → (push w b e).time ≡ w.time
time-push w b e = time-set_bucket w b (bucket w b ++ e ∷ [])

pub locations-push_self :
    (w : Wheel) (b : Bucket) (e : TimerEvent)
    → (push w b e).locations (key e) ≡ some (location_of b (length (bucket w b)))
locations-push_self w b e =
    locations-set_self (set_bucket w b (bucket w b ++ e ∷ [])) (key e) (end_of w b)

pub locations-push_ne :
    (w : Wheel) (b : Bucket) (e : TimerEvent) (k : TimerKey)
    → k ≢ key e
    → (push w b e).locations k ≡ w.locations k
locations-push_ne w b e k ne =
    locations-set_ne (set_bucket w b (bucket w b ++ e ∷ [])) (key e) k (end_of w b) ne
    ∙ ap (λ f. f k) (locations-set_bucket w b (bucket w b ++ e ∷ []))

pub push-At_old :
    (w : Wheel) (b c : Bucket) (e x : TimerEvent) (i : ℕ) → At w c i x → At (push w b e) c i x
push-At_old w b c e x i at = elim (Bucket-cases c b) [
  | inl p ↦
      subst (λ d. At w d i x → At (push w b e) d i x) (sym p)
        (λ at. rw (bucket-push_self w b e) (get_elem?-snoc_old (bucket w b) e x i at)) at
  | inr ne ↦ rw (bucket-push_ne w b c e ne) at
]

pub push-At_new :
    (w : Wheel) (b : Bucket) (e : TimerEvent) → At (push w b e) b (length (bucket w b)) e
push-At_new w b e = rw (bucket-push_self w b e) (get_elem?-snoc_end (bucket w b) e)

pub push-At_cases :
    (w : Wheel) (b c : Bucket) (e x : TimerEvent) (i : ℕ)
    → At (push w b e) c i x
    → At w c i x ⊎ ((c ≡ b) × (i ≡ length (bucket w b)) × (x ≡ e))
push-At_cases w b c e x i at = elim (Bucket-cases c b) [
  | inr ne ↦ inl (rw (bucket-push_ne w b c e ne) at at)
  | inl p ↦
      elim (get_elem?-snoc_cases (bucket w b) e x i
        (rw (bucket-push_self w b e) at (subst (λ d. At (push w b e) d i x) p at))) [
          | inl old ↦ inl (subst (λ d. At w d i x) (sym p) old)
          | inr (q, r) ↦ inr (p, q, r)
        ]
]

-- An event whose key is new goes to the end of the bucket where it belongs.
pub push-Inv :
    (w : Wheel) (b : Bucket) (e : TimerEvent)
    → Inv w
    → w.locations (key e) ≡ none
    → Placed w.time b e
    → Inv (push w b e)
push-Inv w b e v free fit = record {
  placed = λ c i x at. elim (push-At_cases w b c e x i at) [
    | inl old ↦ rw (time-push w b e) (v.placed c i x old)
    | inr (p, q, r) ↦ rw (time-push w b e, p, r) fit
  ];
  indexed = λ c i x at. elim (push-At_cases w b c e x i at) [
    | inl old ↦ locations-push_ne w b e (key x) (fresh c i x old) ∙ v.indexed c i x old
    | inr (p, q, r) ↦
        subst (λ d. (push w b e).locations (key x) ≡ some (location_of d i)) (sym p)
          (ap (λ y. (push w b e).locations (key y)) r
            ∙ locations-push_self w b e
            ∙ ap (λ j. some (location_of b j)) (sym q))
  ];
  located = λ k c i l. found k c i l (Bool-cases (same_key k (key e)));
  clock = rw (time-push w b e) v.clock;
}
  where
    fresh : (c : Bucket) (i : ℕ) (x : TimerEvent) → At w c i x → key x ≢ key e
    fresh c i x old same = some_ne_none (sym (v.indexed c i x old) ∙ ap w.locations same ∙ free)

    found :
        (k : TimerKey) (c : Bucket) (i : ℕ)
        → (push w b e).locations k ≡ some (location_of c i)
        → (same_key k (key e) ≡ true) ⊎ (same_key k (key e) ≡ false)
        → (x : TimerEvent) × At (push w b e) c i x × (key x ≡ k)
    found k c i l (inl yes_same) =
        let same : k ≡ key e = (same_key_iff k (key e)).0 yes_same in
        let here : location_of b (length (bucket w b)) ≡ location_of c i =
          some_inj (sym (locations-push_self w b e) ∙ ap (push w b e).locations (sym same) ∙ l) in
        let (p, q) = location_of-injective b c (length (bucket w b)) i here in
        (
          e,
          subst (λ d. At (push w b e) d i e) p
              (subst (λ j. At (push w b e) b j e) q (push-At_new w b e)),
          sym same,
        )
    found k c i l (inr differ) =
        let ne : k ≢ key e = λ same. ground (arith, (same_key_iff k (key e)).1 same) in
        let (x, at, same) = v.located k c i (sym (locations-push_ne w b e k ne) ∙ l) in
        (x, push-At_old w b c e x i at, same)

-- The invariant sees only the time, the buckets and the locations.
pub Inv-ext :
    (w u : Wheel)
    → u.time ≡ w.time
    → ((b : Bucket) → bucket u b ≡ bucket w b)
    → ((k : TimerKey) → u.locations k ≡ w.locations k)
    → Inv w
    → Inv u
Inv-ext w u t bs ls v = record {
  placed = λ b i e at. rw t (v.placed b i e (rw (bs b) at at));
  indexed = λ b i e at. ls (key e) ∙ v.indexed b i e (rw (bs b) at at);
  located =
      λ k b i l. let (e, at, same) = v.located k b i (sym (ls k) ∙ l) in (e, rw (bs b) at, same);
  clock = rw t v.clock;
}
