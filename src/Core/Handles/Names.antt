-- ===== src/Core/Handles/Names.antt =====
-- Retiring a service, and names.
use Prim.Native.String.{String}
use text.Mathlib.Text.{◌==◌ as str_eq}
use text.Mathlib.TextEquality.{eq_iff}
use rskynet.Base.{
  ◌⊎◌, ℕ, zero, suc, ◌%◌, ◌≡◌, ◌≢◌, refl, sym, ap, ◌∙◌, arith, Option, none, some, List, [], ◌∷◌,
  some_inj, some_ne_none, ◌==◌, Bool-cases, inl, inr, true, false, true_ne_false, Occurs, get_elem?,
}
use rskynet.Core.Handles.{
  Context, HandleStorage, store, if_handle, grab, names_without, lookup_name, retire, find_name,
  register_name,
}
use rskynet.Core.Handles.Valid.{IsValid, grab-slot, grab-none_of_slot, grab-none_of_other}

apart : {a b : ℕ} → a ≡ b → (a == b) ≢ false
apart e = let hit = same e in λ f. true_ne_false (sym hit ∙ f)
  where
    same : {a b : ℕ} → a ≡ b → (a == b) ≡ true
    same e = ground arith

str-same : (k : String) → str_eq k k ≡ true
str-same k = (eq_iff k k).1 refl

str-other : (k j : String) → k ≢ j → str_eq k j ≡ false
str-other k j ne = elim (Bool-cases (str_eq k j)) [
  | inl hit ↦ absurd (ne ((eq_iff k j).0 hit))
  | inr miss ↦ miss
]

-- The names left over are of other services, and they were there before.
names_without-Occurs :
    (h : ℕ) (ns : List (String × ℕ)) (k : String) (o : ℕ)
    → Occurs (k, o) (names_without h ns)
    → (o ≢ h) × Occurs (k, o) ns
unfolding names_without
names_without-Occurs h [] k o (i, e) = absurd (some_ne_none (sym e))
names_without-Occurs h ((n, owner) ∷ ns) k o (i, e) = elim (Bool-cases (owner == h)) [
  | inl mine ↦
      let (ne, (j, f)) = names_without-Occurs h ns k o (i, rw mine at e) in (ne, (suc j, f))
  | inr theirs ↦ kept (λ i e. names_without-Occurs h ns k o (i, e)) theirs i (rw theirs at e)
]
  where
    kept :
        ((i : ℕ) → get_elem? (names_without h ns) i ≡ some (k, o) → (o ≢ h) × Occurs (k, o) ns)
        → (owner == h) ≡ false
        → (i : ℕ) → get_elem? ((n, owner) ∷ names_without h ns) i ≡ some (k, o)
        → (o ≢ h) × Occurs (k, o) ((n, owner) ∷ ns)
    kept behind theirs zero e =
        let same : owner ≡ o = ap (λ (x : String × ℕ). x.1) (some_inj e) in
        (λ q. apart (same ∙ q) theirs, (0, e))
    kept behind theirs (suc i) e = let (ne, (j, f)) = behind i e in (ne, (suc j, f))

names_without-lookup :
    (h : ℕ) (ns : List (String × ℕ)) (k : String) (o : ℕ)
    → lookup_name k ns ≡ some o
    → o ≢ h
    → lookup_name k (names_without h ns) ≡ some o
unfolding names_without
names_without-lookup h [] k o e ne = e
names_without-lookup h ((n, owner) ∷ ns) k o e ne = elim (Bool-cases (str_eq n k)) [
  | inl hit ↦
      let same : owner ≡ o = some_inj (rw hit at e) in
      let kept : (owner == h) ≡ false = ground arith in rw (kept, hit) (ap some same)
  | inr miss ↦
      let behind : lookup_name k (names_without h ns) ≡ some o =
        names_without-lookup h ns k o (rw miss at e) ne in
      elim (Bool-cases (owner == h)) [
        | inl mine ↦ rw mine behind
        | inr theirs ↦ rw (theirs, miss) behind
      ]
]

lookup-Occurs :
    (ns : List (String × ℕ)) (k : String) (o : ℕ)
    → lookup_name k ns ≡ some o
    → (n : String) × Occurs (n, o) ns
lookup-Occurs [] k o e = absurd (some_ne_none (sym e))
lookup-Occurs ((n, owner) ∷ ns) k o e = elim (Bool-cases (str_eq n k)) [
  | inl hit ↦ (n, (0, ap (λ x. some (n, x)) (some_inj (rw hit at e))))
  | inr miss ↦ let (m, (i, f)) = lookup-Occurs ns k o (rw miss at e) in (m, (suc i, f))
]

module _ {Body : Type 0} where
  -- What retiring the handle `h` does.
  pub record Retired (s t : HandleStorage Body) (h : ℕ) : Type 0 where
    pub inv : IsValid t
    pub gone : grab t h ≡ none
    pub next : t.next ≡ s.next
    pub size : t.size ≡ s.size
    pub others : (k : ℕ) → k ≢ h → grab t k ≡ grab s k
    pub no_name : (k : String) → find_name t k ≢ some h
    pub other_names : (k : String) (o : ℕ) → find_name s k ≡ some o → o ≢ h → find_name t k ≡ some o

  module _ (s : HandleStorage Body) (v : IsValid s) (h : ℕ) where
    abbrev emptied : HandleStorage Body
    emptied = record s { slots = store s.slots (h % s.size) none; names = names_without h s.names }

    emptied-here : (i : ℕ) → (i == h % s.size) ≡ true → emptied.slots i ≡ none
    emptied-here i e = rw e refl

    emptied-elsewhere : (i : ℕ) → (i == h % s.size) ≡ false → emptied.slots i ≡ s.slots i
    emptied-elsewhere i e = rw e refl

    emptied-Retired : (c : Context Body) → grab s h ≡ some c → Retired s emptied h
    unfolding find_name
    emptied-Retired c e = record {
      inv = record {
        room = v.room;
        placed = λ i d at. elim (Bool-cases (i == h % s.size)) [
          | inl here ↦ absurd (some_ne_none (sym at ∙ emptied-here i here))
          | inr off ↦ v.placed i d (sym (emptied-elsewhere i off) ∙ at)
        ];
        named = λ k o on.
            let (ne, was) = names_without-Occurs h s.names k o on in
            let (d, at) = v.named k o was in (d, others o ne ∙ at);
      };
      gone = grab-none_of_slot emptied h (emptied-here (h % s.size) (ground arith));
      next = refl;
      size = refl;
      others = others;
      no_name = λ k f.
          let (n, on) = lookup-Occurs (names_without h s.names) k h f in
          (names_without-Occurs h s.names n h on).0 refl;
      other_names = λ k o f ne. names_without-lookup h s.names k o f ne;
    }
      where
        others : (k : ℕ) → k ≢ h → grab emptied k ≡ grab s k
        others k ne = elim (Bool-cases (k % s.size == h % s.size)) [
          | inl there ↦
              let (at, named) = grab-slot s h c e in
              grab-none_of_slot emptied k (emptied-here (k % s.size) there)
              ∙ sym (
                  grab-none_of_other s k c (ap s.slots (ground arith) ∙ at)
                    (λ q. ne (sym q ∙ named)))
          | inr off ↦ unfold grab in ap (if_handle k) (emptied-elsewhere (k % s.size) off)
        ]

  -- On a valid table, retiring gives the service that the handle had. It answers to the handle no more and none of
  -- its names is found, every other service keeps its handle and its names, the next handle and the
  -- size of the table are what they were, and the table stays valid; a handle without a service changes nothing.
  pub retire_lem :
      (s : HandleStorage Body) (h : ℕ)
      → IsValid s
      → let (out, t) = retire s h in (out ≡ grab s h) × (grab s h ≡ none → t ≡ s) × Retired s t h
  unfolding retire find_name
  retire_lem s h v = go (grab s h) refl
    where
      dead : (k : String) → find_name s k ≡ some h → grab s h ≢ none
      dead k f e =
          let (n, on) = lookup-Occurs s.names k h f in
          let (d, at) = v.named n h on in absurd (some_ne_none (sym at ∙ e))

      go :
          (o : Option (Context Body))
          → grab s h ≡ o
          → let (out, t) = retire s h in
            (out ≡ grab s h) × (grab s h ≡ none → t ≡ s) × Retired s t h
      go none e =
          rw (e, retire)
            (
              refl,
              (λ none_there. refl),
              record {
                inv = v;
                gone = e;
                next = refl;
                size = refl;
                others = λ k ne. refl;
                no_name = λ k f. dead k f e;
                other_names = λ k o f ne. f;
              },
            )
      go (some c) e =
          rw (e, retire) (refl, (λ gone. absurd (some_ne_none gone)), emptied-Retired s v h c e)

  -- What registering a name does: it is done only for a live service and a name that nobody has,
  -- and then the name finds the service and the other names find what they did; else the table
  -- is the same.
  pub record Named (s t : HandleStorage Body) (h : ℕ) (k : String) : Type 0 where
    pub inv : IsValid t
    pub live : (c : Context Body) × (grab s h ≡ some c)
    pub new_name : find_name s k ≡ none
    pub found : find_name t k ≡ some h
    pub others : (j : String) → k ≢ j → find_name t j ≡ find_name s j
    pub same : (j : ℕ) → grab t j ≡ grab s j

  Named-Named :
      (s : HandleStorage Body) (h : ℕ) (k : String) (c : Context Body)
      → IsValid s
      → grab s h ≡ some c
      → find_name s k ≡ none
      → Named s (record s { names = (k, h) ∷ s.names }) h k
  unfolding find_name grab
  Named-Named s h k c v e f = record {
    inv = record { room = v.room; placed = v.placed; named = entries };
    live = (c, e);
    new_name = f;
    found = rw (str-same k) refl;
    others = λ j ne. rw (str-other k j ne) refl;
    same = λ j. refl;
  }
    where
      entries :
          (j : String) (o : ℕ)
          → Occurs (j, o) ((k, h) ∷ s.names)
          → (d : Context Body) × (grab s o ≡ some d)
      entries j o (zero, q) =
          let owner : h ≡ o = ap (λ (x : String × ℕ). x.1) (some_inj q) in
          (c, ap (grab s) (sym owner) ∙ e)
      entries j o (suc i, q) = v.named j o (i, q)

  -- On a valid table, registering a name succeeds exactly for a live service and a free name. Then the name finds
  -- the service, other names and all handles answer as before, and the table is valid; else the
  -- table is unchanged.
  pub register_name_lem :
      (s : HandleStorage Body) (h : ℕ) (k : String)
      → IsValid s
      → let (done, t) = register_name s h k in
        ((done ≡ true) × Named s t h k)
        ⊎ ((done ≡ false) × (t ≡ s) × ((grab s h ≡ none) ⊎ (find_name s k ≢ none)))
  unfolding register_name
  register_name_lem s h k v = go (grab s h) refl (find_name s k) refl
    where
      go :
          (o : Option (Context Body))
          → grab s h ≡ o
          → (f : Option ℕ) → find_name s k ≡ f
          → let (done, t) = register_name s h k in
            ((done ≡ true) × Named s t h k)
            ⊎ ((done ≡ false) × (t ≡ s) × ((grab s h ≡ none) ⊎ (find_name s k ≢ none)))
      go none e f q = rw (e, register_name) (inr (refl, refl, inl refl))
      go (some c) e (some o) q =
          rw (e, register_name, q) (inr (refl, refl, inr (λ z. some_ne_none z)))
      go (some c) e none q = rw (e, register_name, q) (inl (refl, Named-Named s h k c v e q))
