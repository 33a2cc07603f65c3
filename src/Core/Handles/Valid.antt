-- ===== src/Core/Handles/Valid.antt =====
-- The invariant of the handle table, and reading by it.
use Prim.Native.String.{String}
use rskynet.Base.{
  ℕ, ◌%◌, ◌<◌, ◌≡◌, ◌≢◌, refl, sym, ap, subst, ◌∙◌, arith, Option, none, some, Option-cases,
  some_inj, some_ne_none, ◌==◌, Bool-cases, inl, inr, true, false, Occurs,
}
use rskynet.Core.Handles.{Context, HandleStorage, new, if_handle, grab}

-- A service stands in the slot of its handle, and its handle was given out; every name belongs to a
-- service that is there.
pub record IsValid {Body : Type 0} (s : HandleStorage Body) : Type 0 where
  pub room : 0 < s.size
  pub placed :
      (i : ℕ) (c : Context Body)
      → s.slots i ≡ some c
      → (i < s.size) × (c.handle % s.size ≡ i) × (c.handle < s.next)
  pub named :
      (k : String) (h : ℕ) → Occurs (k, h) s.names → (c : Context Body) × (grab s h ≡ some c)

module _ {Body : Type 0} where
  pub new-IsValid : IsValid (new {Body = Body})
  unfolding new
  new-IsValid = record {
    room = omega arith;
    placed = λ i c e. absurd (some_ne_none (sym e));
    named = λ k h e. absurd (some_ne_none (sym e.1));
  }

  -- A handle is found exactly if its slot holds a service of that handle.
  pub grab-slot :
      (s : HandleStorage Body) (h : ℕ) (c : Context Body)
      → grab s h ≡ some c
      → (s.slots (h % s.size) ≡ some c) × (c.handle ≡ h)
  unfolding grab
  grab-slot s h c e = go (s.slots (h % s.size)) refl
    where
      go :
          (o : Option (Context Body))
          → s.slots (h % s.size) ≡ o
          → (s.slots (h % s.size) ≡ some c) × (c.handle ≡ h)
      go none p = absurd (some_ne_none (sym e ∙ ap (if_handle h) p))
      go (some d) p = elim (Bool-cases (d.handle == h)) [
        | inl q ↦
            let same : d ≡ c = some_inj (sym (rw q) ∙ sym (ap (if_handle h) p) ∙ e) in
            (p ∙ ap some same, subst (λ (x : Context Body). x.handle ≡ h) same (ground arith))
        | inr q ↦
            let miss : if_handle h (some d) ≡ none = rw q in
            absurd (some_ne_none (sym e ∙ ap (if_handle h) p ∙ miss))
      ]

  pub slot-grab :
      (s : HandleStorage Body) (h : ℕ) (c : Context Body)
      → s.slots (h % s.size) ≡ some c
      → c.handle ≡ h
      → grab s h ≡ some c
  unfolding grab
  slot-grab s h c e same =
      let hit : (c.handle == h) ≡ true = ground arith in ap (if_handle h) e ∙ rw hit

  -- What a slot says of every handle that goes to it.
  pub grab-none_of_slot :
      (s : HandleStorage Body) (h : ℕ) → s.slots (h % s.size) ≡ none → grab s h ≡ none
  unfolding grab
  grab-none_of_slot s h e = ap (if_handle h) e

  pub grab-none_of_other :
      (s : HandleStorage Body) (h : ℕ) (c : Context Body)
      → s.slots (h % s.size) ≡ some c
      → c.handle ≢ h
      → grab s h ≡ none
  unfolding grab
  grab-none_of_other s h c e ne =
      let miss : (c.handle == h) ≡ false = ground arith in ap (if_handle h) e ∙ rw miss

  -- Two tables in which the same services answer to the same handles.
  pub grab-ext :
      (s t : HandleStorage Body)
      → ((h : ℕ) (c : Context Body) → grab s h ≡ some c → grab t h ≡ some c)
      → ((h : ℕ) (c : Context Body) → grab t h ≡ some c → grab s h ≡ some c)
      → (h : ℕ) → grab t h ≡ grab s h
  grab-ext s t to from h = elim (Option-cases (grab s h)) [
    | inl absent ↦ elim (Option-cases (grab t h)) [
      | inl gone ↦ gone ∙ sym absent
      | inr (c, there) ↦ absurd (some_ne_none (sym (from h c there) ∙ absent))
    ]
    | inr (c, there) ↦ to h c there ∙ sym there
  ]
