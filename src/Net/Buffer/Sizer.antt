-- ===== src/Net/Buffer/Sizer.antt =====
-- While reads stay below 2 ^ 63, the read size is the floor times a power of two, never below the floor.
use native.Mathlib.Nat.{pow-suc, one-le-pow}
use rskynet.Base.{
  ℕ, zero, suc, ◌*◌, ◌/◌, ◌^◌, ◌≤◌, ◌<◌, ◌≡◌, refl, ap, ◌∙◌, arith, List, [], ◌∷◌, Bool-cases, inl,
  inr, ◌==◌, ltb, ◌&&◌, ◌%◌, ◌≢◌, ◌⊎◌, true, false, sym, subst, u64_mod,
}
use rskynet.Net.Buffer.{ReadSizer, new_sizer, observe}

floor-le : (f k : ℕ) → f ≤ f * 2 ^ k
floor-le f k = let p : 1 ≤ 2 ^ k = one-le-pow k 2 (omega arith) in grind arith

abbrev pub IsDoubled : ReadSizer → Type 0
IsDoubled s = (k : ℕ) × (s.size ≡ s.floor * 2 ^ k)

double_up : (f k : ℕ) → f * 2 ^ suc k ≡ f * 2 ^ k * 2
double_up f k = rw (pow-suc 2 k) (omega arith)

halve : (f n k : ℕ) → n ≡ f * 2 ^ k → f < n → (j : ℕ) × (n / 2 ≡ f * 2 ^ j)
halve f n zero e lt = absurd (omega arith)
halve f n (suc k) e lt = (k, omega (arith, double_up f k))

-- Above the floor the size is even.
halve_even : (f n k : ℕ) → n ≡ f * 2 ^ k → f < n → (j : ℕ) × (n ≡ j * 2)
halve_even f n zero e lt = absurd (omega arith)
halve_even f n (suc k) e lt = (f * 2 ^ k, e ∙ double_up f k)

-- Below 2 ^ 63 a doubling does not wrap around.
plain_double : (n : ℕ) → n < 9223372036854775808 → n * 2 % u64_mod ≡ n * 2
plain_double n k = omega arith

-- The sizer after a read of at most `limit` bytes, which is below 2 ^ 63.
module _ (limit : ℕ) (small : limit < 9223372036854775808) where
  -- A size that reads of at most `limit` bytes lead to.
  abbrev pub IsReached : ReadSizer → Type 0
  IsReached s = IsDoubled s × ((s.size ≡ s.floor) ⊎ (s.size ≤ limit * 2))

  doubles : (s : ReadSizer) → s.size ≤ limit → (observe s s.size).size ≡ s.size * 2
  unfolding observe
  doubles s k =
      let full : (s.size == s.size) ≡ true = ground arith in
      rw full (plain_double s.size (omega arith))

  halves :
      (s : ReadSizer) (read : ℕ)
      → read ≤ limit
      → s.floor < s.size
      → read * 2 < s.size
      → (observe s read).size ≡ s.size / 2
  unfolding observe
  halves s read k above less =
      let other : (read == s.size) ≡ false = ground arith in
      let up : ltb s.floor s.size ≡ true = ground arith in
      let plain = plain_double read (omega arith) in
      let low : ltb (read * 2) s.size ≡ true = ground arith in rw (other, up, plain, low) refl

  stays :
      (s : ReadSizer) (read : ℕ)
      → read ≤ limit
      → read ≢ s.size
      → (s.size ≤ s.floor) ⊎ (s.size ≤ read * 2)
      → observe s read ≡ s
  unfolding observe
  stays s read k ne why =
      let other : (read == s.size) ≡ false = ground arith in
      let plain = plain_double read (omega arith) in
      let no : (ltb s.floor s.size && ltb (read * 2) s.size) ≡ false = ground arith in
      rw (other, plain, no) refl

  floor-observe : (s : ReadSizer) (read : ℕ) → (observe s read).floor ≡ s.floor
  unfolding observe
  floor-observe s read = ground arith

  -- What a read does to the size.
  data Observed (s : ReadSizer) (read : ℕ) : Type 0 where
    full : read ≡ s.size → Observed s read
    part : s.floor < s.size → read * 2 < s.size → Observed s read
    neither : read ≢ s.size → (s.size ≤ s.floor) ⊎ (s.size ≤ read * 2) → Observed s read

  observed : (s : ReadSizer) (read : ℕ) → Observed s read
  observed s read = elim (Bool-cases (read == s.size)) [
    | inl p ↦ full (ground arith)
    | inr p ↦ elim (Bool-cases (ltb s.floor s.size && ltb (read * 2) s.size)) [
      | inl q ↦ part (ground arith) (ground arith)
      | inr q ↦ neither (ground arith) (ground arith)
    ]
  ]

  observe-IsReached :
      (s : ReadSizer) (read : ℕ) → read ≤ limit → IsReached s → IsReached (observe s read)
  observe-IsReached s read k ((n, e), high) = elim (observed s read) [
    | full p ↦
        let size : (observe s read).size ≡ s.size * 2 =
          ap (λ r. (observe s r).size) p ∙ doubles s (omega (arith, p)) in
        (
          (
            suc n,
            omega (arith, size, double_up s.floor n, e)
                ∙ ap (λ f. f * 2 ^ suc n) (sym (floor-observe s read)),
          ),
          inr (omega arith),
        )
    | part above less ↦
        let size = halves s read k above less in
        let (m, half) = halve s.floor s.size n e above in
        (
          (m, size ∙ half ∙ ap (λ f. f * 2 ^ m) (sym (floor-observe s read))),
          inr (elim high [ inl low ↦ absurd (omega arith) | inr top ↦ omega arith ]),
        )
    | neither ne why ↦ subst IsReached (sym (stays s read k ne why)) ((n, e), high)
  ]

  -- A history of reads.
  abbrev pub AllWithin : List ℕ → Type 0
  AllWithin [] = Unit
  AllWithin (r ∷ rs) = (r ≤ limit) × AllWithin rs

-- The sizer after some reads.
pub observe_all : ReadSizer → List ℕ → ReadSizer
observe_all s [] = s
observe_all s (r ∷ rs) = observe_all (observe s r) rs

module _ (limit : ℕ) (small : limit < 9223372036854775808) where
  all-IsReached :
      (s : ReadSizer) (reads : List ℕ)
      → AllWithin limit small reads
      → IsReached limit small s
      → IsReached limit small (observe_all s reads) × ((observe_all s reads).floor ≡ s.floor)
  unfolding observe_all
  all-IsReached s [] within d = (d, refl)
  all-IsReached s (r ∷ rs) (k, within) d =
      let (a, b) = all-IsReached (observe s r) rs within (observe-IsReached limit small s r k d) in
      (a, b ∙ floor-observe limit small s r)

  -- If no read brings more than `limit` bytes, below 2 ^ 63, then after any reads the size of the next
  -- is the floor times a power of two, hence never below the floor, and it is the floor or at most
  -- twice the limit. On the next read: a full one doubles the size; one of less than half, above the
  -- floor, halves it exactly; any other leaves the sizer as it is.
  pub size_of_history :
      (floor : ℕ) (reads : List ℕ) (read : ℕ)
      → AllWithin limit small reads
      → read ≤ limit
      → let s = observe_all (new_sizer floor) reads in
        let t = observe s read in
        (s.floor ≡ floor)
        × (floor ≤ s.size)
        × ((k : ℕ) × (s.size ≡ floor * 2 ^ k))
        × ((s.size ≡ floor) ⊎ (s.size ≤ limit * 2))
        × (read ≡ s.size → t.size ≡ s.size * 2)
        × (floor < s.size → read * 2 < s.size → t.size * 2 ≡ s.size)
        × (read ≢ s.size → (s.size ≤ floor) ⊎ (s.size ≤ read * 2) → t ≡ s)
  unfolding new_sizer
  size_of_history floor reads read within k =
      let (((n, e), top), same) =
        all-IsReached (new_sizer floor) reads within ((0, omega arith), inl refl) in
      let size = e ∙ ap (λ f. f * 2 ^ n) same in
      let s = observe_all (new_sizer floor) reads in
      (
        same,
        omega (arith, size, floor-le floor n),
        (n, size),
        elim top [ inl low ↦ inl (low ∙ same) | inr high ↦ inr high ],
        (λ p. ap (λ r. (observe s r).size) p ∙ doubles limit small s (omega (arith, p))),
        (λ above less.
            let half = halves limit small s read k (omega arith) less in
            let (m, even) = halve_even floor s.size n size above in omega arith),
        (λ ne why.
            stays limit small s read k ne
              (elim why [ inl low ↦ inl (omega arith) | inr r ↦ inr r ])),
      )
