-- ===== src/Timer/Wheel/Remove.antt =====
-- `Vec::swap_remove`, by positions.
use rskynet.Base.{
  ℕ, zero, suc, ◌-◌, ◌≤◌, ◌<◌, ◌≡◌, ◌≢◌, refl, ap, sym, ◌∙◌, arith, List, [], ◌∷◌, none, some,
  get_elem?, set, length, length-set, get_elem?-set_self, get_elem?-set_ne, get_elem?-some,
}
use rskynet.Timer.Wheel.{TimerEvent, drop_last, swap_remove}

get_elem?-drop_last :
    (xs : List TimerEvent) (j : ℕ) → suc j < length xs → get_elem? (drop_last xs) j ≡ get_elem? xs j
get_elem?-drop_last [] j h = absurd (omega arith)
get_elem?-drop_last (x ∷ []) j h = absurd (omega arith)
get_elem?-drop_last (x ∷ y ∷ xs) zero h = refl
get_elem?-drop_last (x ∷ y ∷ xs) (suc j) h = get_elem?-drop_last (y ∷ xs) j (omega arith)

get_elem?-drop_last_end :
    (xs : List TimerEvent) (j : ℕ) → length xs ≤ suc j → get_elem? (drop_last xs) j ≡ none
get_elem?-drop_last_end [] j h = refl
get_elem?-drop_last_end (x ∷ []) j h = refl
get_elem?-drop_last_end (x ∷ y ∷ xs) zero h = absurd (omega arith)
get_elem?-drop_last_end (x ∷ y ∷ xs) (suc j) h = get_elem?-drop_last_end (y ∷ xs) j (omega arith)

-- What is where after a removal from within the list: the last element stands at the index, every
-- other one where it stood.
module _ (es : List TimerEvent) (i : ℕ) (inside : i < length es) where
  abbrev pub last_index : ℕ
  last_index = length es - 1

  pub last_exists : (last : TimerEvent) × (get_elem? es last_index ≡ some last)
  last_exists = get_elem?-some es last_index (omega arith)

  swap_remove-eq :
      (last : TimerEvent)
      → get_elem? es last_index ≡ some last
      → swap_remove es i ≡ drop_last (set es i last)
  unfolding swap_remove
  swap_remove-eq last e = rw (e, swap_remove)

  pub swap_remove-other :
      (j : ℕ) → j < last_index → j ≢ i → get_elem? (swap_remove es i) j ≡ get_elem? es j
  swap_remove-other j lt ne =
      let (last, e) = last_exists in
      ap (λ l. get_elem? l j) (swap_remove-eq last e)
      ∙ get_elem?-drop_last (set es i last) j (omega (arith, length-set es i last))
      ∙ get_elem?-set_ne es i j last (λ p. ne (sym p))

  pub swap_remove-here :
      (last : TimerEvent)
      → get_elem? es last_index ≡ some last
      → i < last_index
      → get_elem? (swap_remove es i) i ≡ some last
  swap_remove-here last e lt =
      ap (λ l. get_elem? l i) (swap_remove-eq last e)
      ∙ get_elem?-drop_last (set es i last) i (omega (arith, length-set es i last))
      ∙ get_elem?-set_self es i last inside

  pub swap_remove-end : (j : ℕ) → last_index ≤ j → get_elem? (swap_remove es i) j ≡ none
  swap_remove-end j le =
      let (last, e) = last_exists in
      ap (λ l. get_elem? l j) (swap_remove-eq last e)
      ∙ get_elem?-drop_last_end (set es i last) j (omega (arith, length-set es i last))
