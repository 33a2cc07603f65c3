-- ===== src/Base/Pigeonhole.antt =====
-- A loop that tries distinct candidates ends when there are more of them than occupied places.
use Prim.Native.Nat.{ℕ, zero, suc, ◌<◌}
use mathlib.Core.Path.{◌≡◌, refl}
use mathlib.Core.Logic.{◌≢◌, inl, inr}
use mathlib.Core.List.{List, [], ◌∷◌}
use mathlib.Core.Bool.{Bool, true, false, ◌||◌}
use native.Mathlib.Omega.{arith}
use rskynet.Base.Tests.{◌==◌, if◌then◌else◌, Bool-cases}
use rskynet.Base.Lists.{length}

abbrev pub contains : ℕ → List ℕ → Bool
contains k [] = false
contains k (j ∷ ks) = j == k || contains k ks

-- The list with one copy of the key taken out.
remove_one : ℕ → List ℕ → List ℕ
remove_one k [] = []
remove_one k (j ∷ ks) = if j == k then ks else j ∷ remove_one k ks

length-remove_one :
    (k : ℕ) (ks : List ℕ) → contains k ks ≡ true → suc (length (remove_one k ks)) ≡ length ks
unfolding remove_one
length-remove_one k [] h = cc
length-remove_one k (j ∷ ks) h = ground (arith, length-remove_one k ks)

contains-remove_one : (k i : ℕ) (ks : List ℕ) → i ≢ k → contains i (remove_one k ks) ≡ contains i ks
unfolding remove_one
contains-remove_one k i [] h = refl
contains-remove_one k i (j ∷ ks) h = ground (arith, contains-remove_one k i ks h)

-- More distinct candidates than keys: one of them is no key.
pub free_candidate :
    (f : ℕ → ℕ) (n : ℕ) (ks : List ℕ)
    → ((i j : ℕ) → i < n → j < n → i < j → f i ≢ f j)
    → length ks < n
    → (i : ℕ) × (i < n) × (contains (f i) ks ≡ false)
unfolding remove_one
free_candidate f zero ks inj h = absurd (omega arith)
free_candidate f (suc n) ks inj h = elim (Bool-cases (contains (f n) ks)) [
  | inr free ↦ (n, omega arith, free)
  | inl used ↦
      let (i, lt, free) =
        free_candidate f n (remove_one (f n) ks) (λ i j hi hj. inj i j (omega arith) (omega arith))
          (omega (arith, length-remove_one (f n) ks used)) in
      (
        i,
        omega arith,
        rw (contains-remove_one (f n) (f i) ks (inj i n (omega arith) (omega arith) lt)) at free,
      )
]
