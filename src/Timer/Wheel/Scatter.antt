-- ===== src/Timer/Wheel/Scatter.antt =====
-- `add`, and `move_list`'s loop that adds the events of a bucket anew.
use rskynet.Base.{
  ℕ, ◌≤◌, ◌<◌, ◌≡◌, ◌≢◌, ap, sym, subst, ◌∙◌, arith, u64_mod, ◌⊎◌, inl, inr, false, List, [], ◌∷◌,
  ◌++◌, none, some, length, if◌then◌else◌, Bool-cases, true_ne_false,
}
use rskynet.Timer.Wheel.{
  Wheel, TimerEvent, TimerKey, key, same_key, set_location, forget, add, clamp, re_add,
}
use rskynet.Timer.Wheel.Place.{
  Bucket, Bucket-cases, bucket, location_of, same_key_iff, push, home, place-push, home-Fits,
}
use rskynet.Timer.Wheel.Inv.{
  Stored, Placed, Inv, bucket-push_self, bucket-push_ne, time-push, locations-push_self,
  locations-push_ne, push-At_old, push-At_new, push-At_cases, push-Inv, Inv-ext,
}
use rskynet.Timer.Wheel.Moves.{has_key, locations-forget, bucket-forget, time-forget, IsDistinct}

pub clamp_ahead : (time : ℕ) (e : TimerEvent) → time ≤ e.expire → clamp time e ≡ e
clamp_ahead time e h = ground arith

clamp_bounds :
    (time : ℕ) (e : TimerEvent)
    → time < u64_mod
    → e.expire < u64_mod
    → (time ≤ (clamp time e).expire) × ((clamp time e).expire < u64_mod)
clamp_bounds time e ht he = ground arith

pub key-clamp : (time : ℕ) (e : TimerEvent) → key (clamp time e) ≡ key e
key-clamp time e = ground arith

-- `add` pushes the event, clamped, to the bucket where it belongs.
pub add-push :
    (w : Wheel) (e : TimerEvent) → add w e ≡ push w (home w.time (clamp w.time e)) (clamp w.time e)
unfolding add
add-push w e = place-push w (clamp w.time e)

home-Placed :
    (w : Wheel) (e : TimerEvent)
    → w.time < u64_mod
    → e.expire < u64_mod
    → Placed w.time (home w.time (clamp w.time e)) (clamp w.time e)
home-Placed w e ht he =
    let (ahead, small) = clamp_bounds w.time e ht he in
    record { fits = home-Fits w (clamp w.time e) small ht; ahead = ahead; in_word = small }

-- Adding an event under a key that has no timer, with an expiry of 64 bits, keeps the invariant.
pub add-Inv :
    (w : Wheel) (e : TimerEvent)
    → Inv w
    → w.locations (key e) ≡ none
    → e.expire < u64_mod
    → Inv (add w e)
add-Inv w e v free he = subst Inv (sym (add-push w e)) (
    push-Inv w (home w.time (clamp w.time e)) (clamp w.time e) v
      (ap w.locations (key-clamp w.time e) ∙ free) (home-Placed w e v.clock he))

pub add-Stored_new : (w : Wheel) (e : TimerEvent) → Stored (add w e) (clamp w.time e)
add-Stored_new w e =
    subst (λ u. Stored u (clamp w.time e)) (sym (add-push w e))
      (
        home w.time (clamp w.time e),
        length (bucket w (home w.time (clamp w.time e))),
        push-At_new w (home w.time (clamp w.time e)) (clamp w.time e),
      )

pub add-Stored_old : (w : Wheel) (e x : TimerEvent) → Stored w x → Stored (add w e) x
add-Stored_old w e x (b, i, at) =
    subst (λ u. Stored u x) (sym (add-push w e))
      (b, i, push-At_old w (home w.time (clamp w.time e)) b (clamp w.time e) x i at)

pub add-Stored_inv :
    (w : Wheel) (e x : TimerEvent) → Stored (add w e) x → Stored w x ⊎ (x ≡ clamp w.time e)
add-Stored_inv w e x s =
    let (b, i, at) = subst (λ u. Stored u x) (add-push w e) s in
    elim (push-At_cases w (home w.time (clamp w.time e)) b (clamp w.time e) x i at) [
      | inl old ↦ inl (b, i, old)
      | inr (p, q, r) ↦ inr r
    ]

-- Forgetting other keys and pushing an event can change places.
module _ (w : Wheel) (b : Bucket) (e : TimerEvent) (es : List TimerEvent) where
  bucket-forget-push :
      (c : Bucket) → bucket (forget (push w b e) es) c ≡ bucket (push (forget w es) b e) c
  bucket-forget-push c = elim (Bucket-cases c b) [
    | inl p ↦
        subst (λ d. bucket (forget (push w b e) es) d ≡ bucket (push (forget w es) b e) d) (sym p)
          (bucket-forget (push w b e) es b
            ∙ bucket-push_self w b e
            ∙ ap (λ l. l ++ e ∷ []) (sym (bucket-forget w es b))
            ∙ sym (bucket-push_self (forget w es) b e))
    | inr ne ↦
        bucket-forget (push w b e) es c
        ∙ bucket-push_ne w b c e ne
        ∙ sym (bucket-forget w es c)
        ∙ sym (bucket-push_ne (forget w es) b c e ne)
  ]

  locations-forget-push :
      has_key (key e) es ≡ false
      → (k : TimerKey) → (forget (push w b e) es).locations k ≡ (push (forget w es) b e).locations k
  locations-forget-push free k = elim (Bool-cases (same_key k (key e))) [
    | inl yes_same ↦
        let same : k ≡ key e = (same_key_iff k (key e)).0 yes_same in
        subst (λ j. (forget (push w b e) es).locations j ≡ (push (forget w es) b e).locations j)
          (sym same)
          (locations-forget (push w b e) es (key e)
            ∙ rw free (locations-push_self w b e)
            ∙ ap (λ l. some (location_of b (length l))) (sym (bucket-forget w es b))
            ∙ sym (locations-push_self (forget w es) b e))
    | inr differ ↦
        let ne : k ≢ key e =
          λ same. true_ne_false (sym ((same_key_iff k (key e)).1 same) ∙ differ) in
        locations-forget (push w b e) es k
        ∙ ap (λ o. if has_key k es then none else o) (locations-push_ne w b e k ne)
        ∙ sym (locations-forget w es k)
        ∙ sym (locations-push_ne (forget w es) b e k ne)
  ]

-- What `move_list`'s loop needs of the events that it adds: distinct keys, ticks that lie ahead.
abbrev pub Ahead : ℕ → List TimerEvent → Type 0
Ahead time [] = Unit {0}
Ahead time (e ∷ es) = ((time ≤ e.expire) × (e.expire < u64_mod)) × Ahead time es

pub re_add-Inv :
    (w : Wheel) (es : List TimerEvent)
    → IsDistinct es
    → Ahead w.time es
    → Inv (forget w es)
    → Inv (re_add w es)
unfolding re_add
re_add-Inv w [] d a v = v
re_add-Inv w (e ∷ es) d a v =
    re_add-Inv (add u e) es d.1 (subst (λ t. Ahead t es) (sym same_time) a.1)
      (subst (λ x. Inv (forget x es)) (sym (add-push u e)) moved)
  where
    u : Wheel
    u = set_location w (key e) none

    b : Bucket
    b = home u.time (clamp u.time e)

    c : TimerEvent
    c = clamp u.time e

    same_time : (add u e).time ≡ w.time
    same_time = ap (λ (x : Wheel). x.time) (add-push u e) ∙ time-push u b c

    absent : (forget u es).locations (key c) ≡ none
    absent =
        ap (forget u es).locations (key-clamp u.time e)
        ∙ locations-forget u es (key e)
        ∙ rw d.0 (ground arith)

    clock : w.time < u64_mod
    clock = rw (time-forget u es) at v.clock

    moved : Inv (forget (push u b c) es)
    moved =
        Inv-ext (push (forget u es) b c) (forget (push u b c) es)
          (time-forget (push u b c) es
            ∙ time-push u b c
            ∙ sym (time-forget u es)
            ∙ sym (time-push (forget u es) b c))
          (bucket-forget-push u b c es)
          (locations-forget-push u b c es (ap (λ k. has_key k es) (key-clamp u.time e) ∙ d.0))
          (push-Inv (forget u es) b c v absent
            (rw (time-forget u es) (home-Placed u e clock a.0.1)))
