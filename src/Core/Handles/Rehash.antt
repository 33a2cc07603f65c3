-- ===== src/Core/Handles/Rehash.antt =====
-- The loops of `grow`: collecting the services, and giving each its new slot.
use native.Mathlib.Decide.{ℕ_discrete}
use rskynet.Base.{
  ℕ, zero, suc, ◌%◌, ◌≤◌, ◌<◌, ◌≡◌, ◌≢◌, refl, sym, ap, subst, ◌∙◌, arith, List, [], ◌∷◌, Option,
  some, Option-cases, some_inj, some_ne_none, inl, inr, ◌⊎◌, length, length-append, Occurs,
  Occurs-append_left, Occurs-append_right, Occurs-append_cases, true,
}
use rskynet.Base.Pigeonhole.{contains}
use rskynet.Core.Handles.{Context, store, contexts_to, rehash}

abbrev pub Slots : Type 0 → Type 0
Slots Body = ℕ → Option (Context Body)

module _ {Body : Type 0} where
  Occurs-one : (c d : Context Body) → Occurs c (d ∷ []) → d ≡ c
  Occurs-one c d (zero, e) = some_inj e
  Occurs-one c d (suc i, e) = absurd (some_ne_none (sym e))

  -- The list of services holds what the slots hold, one at most for each slot.
  pub contexts_to-slot :
      (n : ℕ) (slots : Slots Body) (c : Context Body)
      → Occurs c (contexts_to n slots)
      → (i : ℕ) × (slots i ≡ some c)
  unfolding contexts_to
  contexts_to-slot zero slots c o = absurd (some_ne_none (sym o.1))
  contexts_to-slot (suc n) slots c o = elim (Option-cases (slots n)) [
    | inl e ↦ contexts_to-slot n slots c (subst (Occurs c) (rw (e, contexts_to)) o)
    | inr (d, e) ↦
        elim (Occurs-append_cases c (contexts_to n slots) (d ∷ [])
          (subst (Occurs c) (rw (e, contexts_to)) o)) [
            | inl before ↦ contexts_to-slot n slots c before
            | inr last ↦ (n, e ∙ ap some (Occurs-one c d last))
          ]
  ]

  pub slot-contexts_to :
      (n : ℕ) (slots : Slots Body) (c : Context Body) (i : ℕ)
      → i < n
      → slots i ≡ some c
      → Occurs c (contexts_to n slots)
  unfolding contexts_to
  slot-contexts_to zero slots c i lt e = absurd (omega arith)
  slot-contexts_to (suc n) slots c i lt e = elim (Option-cases (slots n)) [
    | inl f ↦
        rw (f, contexts_to)
          (slot-contexts_to n slots c i
            (below λ p. some_ne_none (sym (subst (λ j. slots j ≡ some c) p e) ∙ f)) e)
    | inr (d, f) ↦
        rw (f, contexts_to)
          (elim (ℕ_discrete i n) [
            | yes p ↦
                Occurs-append_right c (contexts_to n slots) (d ∷ [])
                  (0, sym f ∙ subst (λ j. slots j ≡ some c) p e)
            | no ne ↦
                Occurs-append_left c (contexts_to n slots) (d ∷ [])
                  (slot-contexts_to n slots c i (below ne) e)
          ])
  ]
    where
      below : i ≢ n → i < n
      below ne = omega arith

  pub length-contexts_to : (n : ℕ) (slots : Slots Body) → length (contexts_to n slots) ≤ n
  unfolding contexts_to
  length-contexts_to zero slots = omega arith
  length-contexts_to (suc n) slots = elim (Option-cases (slots n)) [
    | inl e ↦ rw (e, contexts_to) (omega (arith, length-contexts_to n slots))
    | inr (d, e) ↦
        rw (e, contexts_to)
          (omega (arith, length-contexts_to n slots, length-append (contexts_to n slots) (d ∷ [])))
  ]

  -- Where the services go, and where what is found came from.
  pub store-here : (base : Slots Body) (i : ℕ) (c : Option (Context Body)) → store base i c i ≡ c
  store-here base i c = ground arith

  pub store-elsewhere :
      (base : Slots Body) (i j : ℕ) (c : Option (Context Body)) → j ≢ i → store base i c j ≡ base j
  store-elsewhere base i j c ne = ground arith

  pub rehash-origin :
      (size : ℕ) (cs : List (Context Body)) (base : Slots Body) (j : ℕ) (c : Context Body)
      → rehash size cs base j ≡ some c
      → (Occurs c cs × (c.handle % size ≡ j)) ⊎ (base j ≡ some c)
  unfolding rehash
  rehash-origin size [] base j c e = inr e
  rehash-origin size (x ∷ xs) base j c e =
      elim (rehash-origin size xs (store base (x.handle % size) (some x)) j c e) [
        | inl (o, at) ↦ inl ((suc o.0, o.1), at)
        | inr here ↦ elim (ℕ_discrete j (x.handle % size)) [
          | yes p ↦
              let same : x ≡ c = some_inj (
                sym (store-here base (x.handle % size) (some x))
                ∙ subst (λ i. store base (x.handle % size) (some x) i ≡ some c) p here) in
              inl
                ((0, ap some same), subst (λ (y : Context Body). y.handle % size ≡ j) same (sym p))
          | no ne ↦ inr (sym (store-elsewhere base (x.handle % size) j (some x) ne) ∙ here)
        ]
      ]

  pub rehash-here :
      (size : ℕ) (cs : List (Context Body)) (base : Slots Body) (j : ℕ) (c : Context Body)
      → Occurs c cs ⊎ (base j ≡ some c)
      → c.handle % size ≡ j
      → ((d : Context Body) → Occurs d cs → d.handle % size ≡ j → d ≡ c)
      → rehash size cs base j ≡ some c
  unfolding rehash
  rehash-here size [] base j c (inl o) at only = absurd (some_ne_none (sym o.1))
  rehash-here size [] base j c (inr e) at only = e
  rehash-here size (x ∷ xs) base j c found at only =
      rehash-here size xs (store base (x.handle % size) (some x)) j c
        (elim (ℕ_discrete j (x.handle % size)) [
          | yes p ↦
              let same : x ≡ c = only x (0, refl) (sym p) in
              inr (
                subst (λ i. store base (x.handle % size) (some x) i ≡ some c) (sym p)
                  (store-here base (x.handle % size) (some x) ∙ ap some same))
          | no ne ↦ elim found [
            | inr e ↦ inr (store-elsewhere base (x.handle % size) j (some x) ne ∙ e)
            | inl o ↦ inl (behind o ne)
          ]
        ])
        at (λ d o. only d (suc o.0, o.1))
    where
      behind : Occurs c (x ∷ xs) → j ≢ x.handle % size → Occurs c xs
      behind (zero, e) ne =
          absurd (ne (sym at ∙ ap (λ (y : Context Body). y.handle % size) (sym (some_inj e))))
      behind (suc i, e) ne = (i, e)

  -- The slots in which some service of the list goes.
  pub homes : ℕ → List (Context Body) → List ℕ
  homes size [] = []
  homes size (c ∷ cs) = c.handle % size ∷ homes size cs

  pub length-homes : (size : ℕ) (cs : List (Context Body)) → length (homes size cs) ≡ length cs
  unfolding homes
  length-homes size [] = refl
  length-homes size (c ∷ cs) = ap suc (length-homes size cs)

  pub homes-Occurs :
      (size : ℕ) (cs : List (Context Body)) (c : Context Body)
      → Occurs c cs
      → contains (c.handle % size) (homes size cs) ≡ true
  unfolding homes
  homes-Occurs size [] c o = absurd (some_ne_none (sym o.1))
  homes-Occurs size (x ∷ xs) c (zero, e) =
      let same : x.handle % size ≡ c.handle % size =
        ap (λ (y : Context Body). y.handle % size) (some_inj e) in
      ground arith
  homes-Occurs size (x ∷ xs) c (suc i, e) = ground (arith, homes-Occurs size xs c (i, e))
