-- ===== src/Core/Handles/Register.antt =====
-- `register_with` finds a slot within two rounds.
use native.Mathlib.Nat.{mod-lt, mod-add-div', mul-le-mul_right, suc-mul}
use rskynet.Base.{
  ℕ, zero, suc, ◌+◌, ◌*◌, ◌%◌, ◌/◌, ◌≤◌, ◌<◌, ◌≡◌, ◌≢◌, refl, sym, ap, subst, ◌∙◌, arith, none,
  some, Option-cases, some_inj, some_ne_none, ◌==◌, ltb, Bool-cases, ◌⊎◌, inl, inr, true, false,
  u64_max,
}
use rskynet.Base.Pigeonhole.{free_candidate}
use rskynet.Core.Handles.{
  Context, HandleStorage, if_handle, grab, grow, contexts, Probe, vacant, all_taken, registered,
  probe, occupy, register_loop, register_with, max_slots,
}
use rskynet.Core.Handles.Valid.{IsValid, slot-grab, grab-none_of_slot, grab-none_of_other}
use rskynet.Core.Handles.Rehash.{Slots, homes}
use rskynet.Core.Handles.Grow.{Grown, grow-Grown}

module _ {Body : Type 0} where
  -- A slot was found, the first of those tried that is vacant.
  abbrev Found : ℕ → ℕ → ℕ → Slots Body → Probe → Type 0
  Found rounds size handle slots p =
      (h : ℕ) × (p ≡ vacant h) × (handle ≤ h) × (h < handle + rounds) × (slots (h % size) ≡ none)

  abbrev Full : ℕ → ℕ → ℕ → Slots Body → Probe → Type 0
  Full rounds size handle slots p =
      (p ≡ all_taken) × ((i : ℕ) → i < rounds → slots ((handle + i) % size) ≢ none)

  probe_lem :
      (rounds size handle : ℕ) (slots : Slots Body)
      → handle + rounds ≤ u64_max
      → let p = probe rounds size handle slots in
        Found rounds size handle slots p ⊎ Full rounds size handle slots p
  unfolding probe
  probe_lem zero size handle slots k = inr (refl, λ i small. absurd (omega arith))
  probe_lem (suc rounds) size handle slots k =
      let room : ltb handle u64_max ≡ true = ground arith in
      elim (Option-cases (slots (handle % size))) [
        | inl free ↦ inl (handle, rw (probe, free, room) refl, omega arith, omega arith, free)
        | inr (c, used) ↦
            let step : probe (suc rounds) size handle slots ≡ probe rounds size (handle + 1) slots =
              rw (probe, used, room) refl in
            elim (probe_lem rounds size (handle + 1) slots (omega arith)) [
              | inl (h, e, low, high, free) ↦ inl (h, step ∙ e, omega arith, omega arith, free)
              | inr (e, taken) ↦ inr (step ∙ e, λ i small. later i small c used taken)
            ]
      ]
    where
      later :
          (i : ℕ)
          → i < suc rounds
          → (c : Context Body) → slots (handle % size) ≡ some c
          → ((j : ℕ) → j < rounds → slots ((handle + 1 + j) % size) ≢ none)
          → slots ((handle + i) % size) ≢ none
      later zero small c used taken gone =
          some_ne_none (sym used ∙ ap (λ n. slots (n % size)) (omega arith) ∙ gone)
      later (suc j) small c used taken gone =
          taken j (omega arith) (ap (λ n. slots (n % size)) (omega arith) ∙ gone)

  -- A vacant slot takes the new service.
  record Occupied (s t : HandleStorage Body) (c : Context Body) : Type 0 where
    pub inv : IsValid t
    pub fresh : grab s c.handle ≡ none
    pub added : grab t c.handle ≡ some c
    pub others : (h : ℕ) → h ≢ c.handle → grab t h ≡ grab s h
    pub unused : s.next ≤ c.handle
    pub next : t.next ≡ c.handle + 1
    pub same_names : t.names ≡ s.names

  module _ (s : HandleStorage Body) (v : IsValid s) (c : Context Body) (unused : s.next ≤ c.handle)
      (free : s.slots (c.handle % s.size) ≡ none) where
    abbrev after : HandleStorage Body
    after = occupy s c c.handle

    after-here : (h : ℕ) → h % s.size ≡ c.handle % s.size → after.slots (h % s.size) ≡ some c
    after-here h e = ground arith

    after-elsewhere :
        (h : ℕ) → h % s.size ≢ c.handle % s.size → after.slots (h % s.size) ≡ s.slots (h % s.size)
    after-elsewhere h ne = ground arith

    others : (h : ℕ) → h ≢ c.handle → grab after h ≡ grab s h
    others h ne = elim (Bool-cases (h % s.size == c.handle % s.size)) [
      | inl there ↦
          grab-none_of_other after h c (after-here h (ground arith)) (λ e. ne (sym e))
          ∙ sym (grab-none_of_slot s h (ap s.slots (ground arith) ∙ free))
      | inr apart ↦ unfold grab in ap (if_handle h) (after-elsewhere h (ground arith))
    ]

    fresh : grab s c.handle ≡ none
    fresh = grab-none_of_slot s c.handle free

    placed_after :
        (i : ℕ) (d : Context Body)
        → after.slots i ≡ some d
        → (i < s.size) × (d.handle % s.size ≡ i) × (d.handle < c.handle + 1)
    placed_after i d e = elim (Bool-cases (i == c.handle % s.size)) [
      | inl here ↦
          let same : c ≡ d = some_inj (sym (after_at i here) ∙ e) in
          subst
            (λ (x : Context Body).
              (i < s.size) × (x.handle % s.size ≡ i) × (x.handle < c.handle + 1))
            same
            (
              subst (λ n. n < s.size) (ground arith) (mod-lt c.handle v.room),
              ground arith,
              omega arith,
            )
      | inr apart ↦
          let (a, b, k) = v.placed i d (sym (after_off i apart) ∙ e) in (a, b, omega arith)
    ]
      where
        after_at : (i : ℕ) → (i == c.handle % s.size) ≡ true → after.slots i ≡ some c
        after_at i e = rw e refl

        after_off : (i : ℕ) → (i == c.handle % s.size) ≡ false → after.slots i ≡ s.slots i
        after_off i e = rw e refl

    occupy-Occupied : Occupied s after c
    occupy-Occupied = record {
      inv = record {
        room = v.room;
        placed = λ i d e. placed_after i d e;
        named = λ k h e.
            let (d, at) = v.named k h e in
            let old : h ≢ c.handle = λ q. some_ne_none (sym at ∙ ap (grab s) q ∙ fresh) in
            (d, others h old ∙ at);
      };
      fresh = fresh;
      added = slot-grab after c.handle c (after-here c.handle refl) refl;
      others = others;
      unused = unused;
      next = refl;
      same_names = refl;
    }

-- Fewer than `m` steps apart, two handles have different slots.
mods_apart : (a b m : ℕ) → a < b → b < a + m → a % m ≢ b % m
mods_apart a b m low high e = elim (Bool-cases (ltb (a / m) (b / m))) [
  | inl more ↦ omega (
    arith,
    mod-add-div' a m,
    mod-add-div' b m,
    mul-le-mul_right m (below more),
    suc-mul (a / m) m,
  )
  | inr less ↦ omega (arith, mod-add-div' a m, mod-add-div' b m, mul-le-mul_right m (above less))
]
  where
    below : ltb (a / m) (b / m) ≡ true → suc (a / m) ≤ b / m
    below e = ground arith

    above : ltb (a / m) (b / m) ≡ false → b / m ≤ a / m
    above e = ground arith

module _ {Body : Type 0} where
  -- What `register_with` promises.
  pub record Added (s t : HandleStorage Body) (make : ℕ → Context Body) (h : ℕ) : Type 0 where
    pub inv : IsValid t
    pub unused : s.next ≤ h
    pub fresh : grab s h ≡ none
    pub added : grab t h ≡ some (make h)
    pub others : (k : ℕ) → k ≢ h → grab t k ≡ grab s k
    pub next : t.next ≡ h + 1

  loop-vacant :
      (fuel : ℕ) (make : ℕ → Context Body) (s : HandleStorage Body) (h : ℕ)
      → probe s.size s.size s.next s.slots ≡ vacant h
      → register_loop (suc fuel) make s ≡ registered (make h) (occupy s (make h) h)
  unfolding register_loop
  loop-vacant fuel make s h e = rw (register_loop, e) refl

  loop-grown :
      (fuel : ℕ) (make : ℕ → Context Body) (s t : HandleStorage Body)
      → probe s.size s.size s.next s.slots ≡ all_taken
      → grow s ≡ some t
      → register_loop (suc fuel) make s ≡ register_loop fuel make t
  unfolding register_loop
  loop-grown fuel make s t e f = rw (register_loop, e, f) refl

  -- A round that finds a vacant slot.
  round-Added :
      (fuel : ℕ) (make : ℕ → Context Body) (s : HandleStorage Body)
      → IsValid s
      → ((h : ℕ) → (make h).handle ≡ h)
      → Found s.size s.size s.next s.slots (probe s.size s.size s.next s.slots)
      → (h : ℕ) × (t : HandleStorage Body) × (register_loop (suc fuel) make s
          ≡ registered (make h) t)
        × Added s t make h
  round-Added fuel make s v names_it (h, e, low, high, free) =
      let same : (make h).handle ≡ h = names_it h in
      let o : Occupied s (occupy s (make h) (make h).handle) (make h) =
        occupy-Occupied s v (make h) (omega arith) (ap (λ k. s.slots (k % s.size)) same ∙ free) in
      let o' : Occupied s (occupy s (make h) h) (make h) =
        subst (λ k. Occupied s (occupy s (make h) k) (make h)) same o in
      (
        h,
        occupy s (make h) h,
        loop-vacant fuel make s h e,
        record {
          inv = o'.inv;
          unused = low;
          fresh = ap (grab s) (sym same) ∙ o'.fresh;
          added = ap (grab (occupy s (make h) h)) (sym same) ∙ o'.added;
          others = λ k ne. o'.others k (λ q. ne (q ∙ same));
          next = refl;
        },
      )

  -- On a valid table a new service always gets a handle, if its context bears the handle it is made
  -- for: while the array may double and the handles are far from
  -- exhausted, `register_with` ends within its two rounds without a panic. The handle is not
  -- smaller than `next` and answered to no service before; it answers to the new one now, no other
  -- handle changes its service, also when the table grew, and the table is valid again.
  pub register_with_lem :
      (make : ℕ → Context Body) (s : HandleStorage Body)
      → IsValid s
      → ((h : ℕ) → (make h).handle ≡ h)
      → s.size * 2 ≤ max_slots
      → s.next + s.size * 2 ≤ u64_max
      → (h : ℕ) × (t : HandleStorage Body) × (register_with make s ≡ registered (make h) t)
        × Added s t make h
  unfolding register_with
  register_with_lem make s v names_it room far =
      elim (probe_lem s.size s.size s.next s.slots (omega arith)) [
        | inl found ↦ round-Added 1 make s v names_it found
        | inr (full, taken) ↦
            let (t, e, g) = grow-Grown s v room in
            let (h, u, f, a) = round-Added 0 make t g.inv names_it (vacancy t g) in
            (
              h,
              u,
              loop-grown 1 make s t full e ∙ f,
              record {
                inv = a.inv;
                unused = omega (arith, a.unused, g.next);
                fresh = sym (g.same h) ∙ a.fresh;
                added = a.added;
                others = λ k ne. a.others k ne ∙ g.same k;
                next = a.next;
              },
            )
      ]
    where
      vacancy :
          (t : HandleStorage Body)
          → Grown s t
          → Found t.size t.size t.next t.slots (probe t.size t.size t.next t.slots)
      vacancy t g =
          elim (probe_lem t.size t.size t.next t.slots (omega (arith, g.next, g.doubled, far))) [
            | inl found ↦ found
            | inr (full, taken) ↦
                let (i, small, free) =
                  free_candidate (λ i. (t.next + i) % t.size) t.size (homes t.size (contexts s))
                    (λ i j hi hj lt.
                      mods_apart (t.next + i) (t.next + j) t.size (omega arith) (omega arith))
                    (omega (arith, g.few, g.doubled, v.room)) in
                absurd (taken i small (g.vacant ((t.next + i) % t.size) free))
          ]
