-- ===== src/Core/Handles/Grow.antt =====
-- `grow`: the same services answer to the same handles, and half of the new slots are vacant.
use native.Mathlib.Nat.{mod-lt, mod-mod_of_dvd, dvd-mul_right}
use rskynet.Base.{
  ℕ, ◌*◌, ◌%◌, ◌≤◌, ◌<◌, ◌≡◌, refl, sym, ap, subst, ◌∙◌, arith, none, some, Option-cases, some_inj,
  some_ne_none, inl, inr, length, Occurs, leb, true, false, true_ne_false,
}
use rskynet.Base.Pigeonhole.{contains}
use rskynet.Core.Handles.{Context, HandleStorage, grab, contexts, rehash, grow, max_slots}
use rskynet.Core.Handles.Valid.{IsValid, grab-slot, slot-grab, grab-ext}
use rskynet.Core.Handles.Rehash.{
  contexts_to-slot, slot-contexts_to, length-contexts_to, rehash-origin, rehash-here, homes,
  length-homes, homes-Occurs,
}

-- A table grown from another.
pub record Grown {Body : Type 0} (s t : HandleStorage Body) : Type 0 where
  pub inv : IsValid t
  pub doubled : t.size ≡ s.size * 2
  pub same : (h : ℕ) → grab t h ≡ grab s h
  pub next : t.next ≡ s.next
  pub vacant : (j : ℕ) → contains j (homes t.size (contexts s)) ≡ false → t.slots j ≡ none
  pub few : length (homes t.size (contexts s)) ≤ s.size

module _ {Body : Type 0} (s : HandleStorage Body) (v : IsValid s) where
  abbrev doubled_size : ℕ
  doubled_size = s.size * 2

  abbrev bigger : HandleStorage Body
  bigger = record s { slots = rehash doubled_size (contexts s) (λ i. none); size = doubled_size }

  Occurs-slot : (c : Context Body) → Occurs c (contexts s) → s.slots (c.handle % s.size) ≡ some c
  unfolding contexts
  Occurs-slot c o =
      let (i, e) = contexts_to-slot s.size s.slots c o in
      subst (λ j. s.slots j ≡ some c) (sym (v.placed i c e).1) e

  slot-Occurs : (i : ℕ) (c : Context Body) → s.slots i ≡ some c → Occurs c (contexts s)
  unfolding contexts
  slot-Occurs i c e = slot-contexts_to s.size s.slots c i (v.placed i c e).0 e

  mod_down : (h : ℕ) → h % doubled_size % s.size ≡ h % s.size
  mod_down h = mod-mod_of_dvd s.size h (dvd-mul_right s.size 2)

  -- Services that share a new slot shared the old one, hence are one.
  only_one :
      (c d : Context Body)
      → Occurs c (contexts s)
      → Occurs d (contexts s)
      → d.handle % doubled_size ≡ c.handle % doubled_size
      → d ≡ c
  only_one c d oc od e =
      let old : d.handle % s.size ≡ c.handle % s.size =
        sym (mod_down d.handle) ∙ ap (λ x. x % s.size) e ∙ mod_down c.handle in
      some_inj (sym (Occurs-slot d od) ∙ ap s.slots old ∙ Occurs-slot c oc)

  bigger-origin :
      (j : ℕ) (c : Context Body)
      → bigger.slots j ≡ some c
      → Occurs c (contexts s) × (c.handle % doubled_size ≡ j)
  bigger-origin j c e = elim (rehash-origin doubled_size (contexts s) (λ i. none) j c e) [
    | inl o ↦ o
    | inr gone ↦ absurd (some_ne_none (sym gone))
  ]

  bigger-here :
      (c : Context Body) → Occurs c (contexts s) → bigger.slots (c.handle % doubled_size) ≡ some c
  bigger-here c o =
      rehash-here doubled_size (contexts s) (λ i. none) (c.handle % doubled_size) c (inl o) refl
        (λ d od e. only_one c d o od e)

  keeps : (h : ℕ) (c : Context Body) → grab s h ≡ some c → grab bigger h ≡ some c
  keeps h c e =
      let (at, named) = grab-slot s h c e in
      slot-grab bigger h c
        (subst (λ x. bigger.slots (x % doubled_size) ≡ some c) named
          (bigger-here c (slot-Occurs (h % s.size) c at)))
        named

  adds_none : (h : ℕ) (c : Context Body) → grab bigger h ≡ some c → grab s h ≡ some c
  adds_none h c e =
      let (at, named) = grab-slot bigger h c e in
      let (o, home) = bigger-origin (h % doubled_size) c at in
      slot-grab s h c (subst (λ x. s.slots (x % s.size) ≡ some c) named (Occurs-slot c o)) named

  bigger-Grown : Grown s bigger
  bigger-Grown = record {
    inv = record {
      room = omega (arith, v.room);
      placed = λ i c e.
          let (o, home) = bigger-origin i c e in
          (
            subst (λ x. x < doubled_size) home (mod-lt c.handle (omega (arith, v.room))),
            home,
            (v.placed (c.handle % s.size) c (Occurs-slot c o)).2,
          );
      named = λ k h e. let (c, at) = v.named k h e in (c, keeps h c at);
    };
    doubled = refl;
    same = grab-ext s bigger keeps adds_none;
    next = refl;
    vacant = λ j free. elim (Option-cases (bigger.slots j)) [
      | inl gone ↦ gone
      | inr (c, e) ↦
          let (o, home) = bigger-origin j c e in
          absurd (
            true_ne_false (
              sym (homes-Occurs doubled_size (contexts s) c o)
              ∙ ap (λ x. contains x (homes doubled_size (contexts s))) home
              ∙ free))
    ];
    few = omega (arith, length-homes doubled_size (contexts s), few_contexts);
  }
    where
      few_contexts : length (contexts s) ≤ s.size
      few_contexts = unfold contexts in length-contexts_to s.size s.slots

  -- On a valid table, as long as the array may double, `grow` keeps every service under its handle, and the new
  -- slots that are not the home of one are vacant.
  pub grow-Grown : s.size * 2 ≤ max_slots → (t : HandleStorage Body) × (grow s ≡ some t) × Grown s t
  unfolding grow
  grow-Grown h =
      let fits : leb (s.size * 2) max_slots ≡ true = ground arith in (bigger, rw fits, bigger-Grown)
