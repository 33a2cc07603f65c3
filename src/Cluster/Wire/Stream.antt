-- ===== src/Cluster/Wire/Stream.antt =====
-- Draining a stream in pieces is draining it whole.
use mathlib.Core.List.{append_assoc}
use rskynet.Base.{
  ℕ, zero, suc, ◌+◌, ◌≤◌, ◌<◌, ◌≡◌, refl, sym, ap, subst, ◌∙◌, arith, List, [], ◌∷◌, ◌++◌, Option,
  none, some, ltb, length, length-append, length-drop, take, drop, drop-append, Bool-cases, inl,
  inr, Option-cases, some_inj, some_ne_none, true, false,
}
use rskynet.Cluster.Wire.{
  read_u32, Drained, drained, too_long, malformed, out_of_fuel, before, drain_loop, drain,
}

pub read_u32-length :
    (bytes rest : List ℕ) (n : ℕ) → read_u32 bytes ≡ some (n, rest) → length bytes ≡ 4 + length rest
read_u32-length [] rest n e = absurd (some_ne_none (sym e))
read_u32-length (a ∷ []) rest n e = absurd (some_ne_none (sym e))
read_u32-length (a ∷ b ∷ []) rest n e = absurd (some_ne_none (sym e))
read_u32-length (a ∷ b ∷ c ∷ []) rest n e = absurd (some_ne_none (sym e))
read_u32-length (a ∷ b ∷ c ∷ d ∷ more) rest n e =
    omega (arith, ap length (ap (λ (x : ℕ × List ℕ). x.1) (some_inj e)))

pub read_u32-append :
    (bytes rest more : List ℕ) (n : ℕ)
    → read_u32 bytes ≡ some (n, rest)
    → read_u32 (bytes ++ more) ≡ some (n, rest ++ more)
read_u32-append [] rest more n e = absurd (some_ne_none (sym e))
read_u32-append (a ∷ []) rest more n e = absurd (some_ne_none (sym e))
read_u32-append (a ∷ b ∷ []) rest more n e = absurd (some_ne_none (sym e))
read_u32-append (a ∷ b ∷ c ∷ []) rest more n e = absurd (some_ne_none (sym e))
read_u32-append (a ∷ b ∷ c ∷ d ∷ r) rest more n e = ap (λ (x : Option (ℕ × List ℕ)). push x) e
  where
    push : Option (ℕ × List ℕ) → Option (ℕ × List ℕ)
    push none = none
    push (some x) = some (x.0, x.1 ++ more)

take-append : {A : Type 0} (n : ℕ) (xs ys : List A) → n ≤ length xs → take n (xs ++ ys) ≡ take n xs
take-append zero xs ys h = refl
take-append (suc n) [] ys h = absurd (omega arith)
take-append (suc n) (x ∷ xs) ys h = ap (λ l. x ∷ l) (take-append n xs ys (omega arith))

-- How draining the bytes behind some envelopes and draining all the bytes hang together: the envelopes
-- come first, or both are the same error, which gives no envelope.
abbrev pub Joined {ℓ} : {E : Type ℓ} → List E → Drained E → Drained E → Type ℓ
Joined es (drained xs rest) out = out ≡ drained (es ++ xs) rest
Joined es too_long out = out ≡ too_long
Joined es malformed out = out ≡ malformed
Joined es out_of_fuel out = out ≡ out_of_fuel

-- The fuel was enough.
abbrev pub Ended {ℓ} : {E : Type ℓ} → Drained E → Type 0
Ended (drained xs rest) = Unit
Ended too_long = Unit
Ended malformed = Unit
Ended out_of_fuel = ⊥

before-Joined {ℓ} :
    {E : Type ℓ} (es : List E) (d out : Drained E) → out ≡ before es d → Joined es d out
before-Joined es (drained xs rest) out e = e
before-Joined es too_long out e = e
before-Joined es malformed out e = e
before-Joined es out_of_fuel out e = e

before-Ended {ℓ} : {E : Type ℓ} (es : List E) (d : Drained E) → Ended d → Ended (before es d)
before-Ended es (drained xs rest) ran = tt
before-Ended es too_long ran = tt
before-Ended es malformed ran = tt
before-Ended es out_of_fuel ran = ran

module _ {ℓ} {E : Type ℓ} (decode : List ℕ → Option E) (limit : ℕ) where
  -- The rounds of the loop by what they find.
  step_short :
      (fuel : ℕ) (bytes : List ℕ)
      → read_u32 bytes ≡ none
      → drain_loop (suc fuel) decode limit bytes ≡ drained [] bytes
  unfolding drain_loop
  step_short fuel bytes e = rw (drain_loop, e) refl

  step_long :
      (fuel n : ℕ) (bytes rest : List ℕ)
      → read_u32 bytes ≡ some (n, rest)
      → limit < n
      → drain_loop (suc fuel) decode limit bytes ≡ too_long
  unfolding drain_loop
  step_long fuel n bytes rest e k =
      let over : ltb limit n ≡ true = ground arith in rw (drain_loop, e, over) refl

  step_wait :
      (fuel n : ℕ) (bytes rest : List ℕ)
      → read_u32 bytes ≡ some (n, rest)
      → n ≤ limit
      → length rest < n
      → drain_loop (suc fuel) decode limit bytes ≡ drained [] bytes
  unfolding drain_loop
  step_wait fuel n bytes rest e k l =
      let fits : ltb limit n ≡ false = ground arith in
      let short : ltb (length rest) n ≡ true = ground arith in rw (drain_loop, e, fits, short) refl

  step_bad :
      (fuel n : ℕ) (bytes rest : List ℕ)
      → read_u32 bytes ≡ some (n, rest)
      → n ≤ limit
      → n ≤ length rest
      → decode (take n rest) ≡ none
      → drain_loop (suc fuel) decode limit bytes ≡ malformed
  unfolding drain_loop
  step_bad fuel n bytes rest e k l d =
      let fits : ltb limit n ≡ false = ground arith in
      let whole : ltb (length rest) n ≡ false = ground arith in
      rw (drain_loop, e, fits, whole, d) refl

  pub step_frame :
      (fuel n : ℕ) (bytes rest : List ℕ) (x : E)
      → read_u32 bytes ≡ some (n, rest)
      → n ≤ limit
      → n ≤ length rest
      → decode (take n rest) ≡ some x
      → drain_loop (suc fuel) decode limit bytes
        ≡ before (x ∷ []) (drain_loop fuel decode limit (drop n rest))
  unfolding drain_loop
  step_frame fuel n bytes rest x e k l d =
      let fits : ltb limit n ≡ false = ground arith in
      let whole : ltb (length rest) n ≡ false = ground arith in
      rw (drain_loop, e, fits, whole, d) refl

  -- What the loop finds at the front of its bytes.
  data Front (bytes : List ℕ) : Type ℓ where
    short : read_u32 bytes ≡ none → Front bytes
    long : (n : ℕ) (rest : List ℕ) → read_u32 bytes ≡ some (n, rest) → limit < n → Front bytes
    waiting :
        (n : ℕ) (rest : List ℕ)
        → read_u32 bytes ≡ some (n, rest)
        → n ≤ limit
        → length rest < n
        → Front bytes
    bad :
        (n : ℕ) (rest : List ℕ)
        → read_u32 bytes ≡ some (n, rest)
        → n ≤ limit
        → n ≤ length rest
        → decode (take n rest) ≡ none
        → Front bytes
    whole :
        (n : ℕ) (rest : List ℕ) (x : E)
        → read_u32 bytes ≡ some (n, rest)
        → n ≤ limit
        → n ≤ length rest
        → decode (take n rest) ≡ some x
        → Front bytes

  front : (bytes : List ℕ) → Front bytes
  front bytes = elim (Option-cases (read_u32 bytes)) [
    | inl e ↦ short e
    | inr ((n, rest), e) ↦ elim (Bool-cases (ltb limit n)) [
      | inl over ↦ long n rest e (ground arith)
      | inr fits ↦ elim (Bool-cases (ltb (length rest) n)) [
        | inl less ↦ waiting n rest e (ground arith) (ground arith)
        | inr enough ↦ elim (Option-cases (decode (take n rest))) [
          | inl d ↦ bad n rest e (ground arith) (ground arith) d
          | inr (x, d) ↦ whole n rest x e (ground arith) (ground arith) d
        ]
      ]
    ]
  ]

  -- Any fuel past the number of bytes gives the same.
  pub loop_fuel :
      (f g : ℕ) (bytes : List ℕ)
      → length bytes < f
      → length bytes < g
      → drain_loop f decode limit bytes ≡ drain_loop g decode limit bytes
  loop_fuel zero g bytes k l = absurd (omega arith)
  loop_fuel (suc f) zero bytes k l = absurd (omega arith)
  loop_fuel (suc f) (suc g) bytes k l = elim (front bytes) [
    | short e ↦ step_short f bytes e ∙ sym (step_short g bytes e)
    | long n rest e o ↦ step_long f n bytes rest e o ∙ sym (step_long g n bytes rest e o)
    | waiting n rest e o w ↦ step_wait f n bytes rest e o w ∙ sym (step_wait g n bytes rest e o w)
    | bad n rest e o w d ↦ step_bad f n bytes rest e o w d ∙ sym (step_bad g n bytes rest e o w d)
    | whole n rest x e o w d ↦
        let less = read_u32-length bytes rest n e in
        let same =
          loop_fuel f g (drop n rest) (omega (arith, less, length-drop n rest))
            (omega (arith, less, length-drop n rest)) in
        step_frame f n bytes rest x e o w d
        ∙ ap (before (x ∷ [])) same
        ∙ sym (step_frame g n bytes rest x e o w d)
  ]

  left : Drained E → List ℕ
  left (drained _ l) = l
  left _ = []

  found : Drained E → List E
  found (drained l _) = l
  found _ = []

  before_inv :
      (x : E) (d : Drained E) (xs : List E) (r : List ℕ)
      → before (x ∷ []) d ≡ drained xs r
      → (ys : List E) × (d ≡ drained ys r) × (xs ≡ x ∷ ys)
  unfolding left found
  before_inv x (drained ys s) xs r e = (ys, ap (λ l. drained ys l) (ap left e), sym (ap found e))
  before_inv x too_long xs r e = absurd (cc)
  before_inv x malformed xs r e = absurd (cc)
  before_inv x out_of_fuel xs r e = absurd (cc)

  pub before-before :
      (xs ys : List E) (d : Drained E) → before xs (before ys d) ≡ before (xs ++ ys) d
  before-before xs ys (drained zs r) = ap (λ l. drained l r) (sym (append_assoc xs ys zs))
  before-before xs ys too_long = refl
  before-before xs ys malformed = refl
  before-before xs ys out_of_fuel = refl

  pub before-nil : (d : Drained E) → before [] d ≡ d
  before-nil (drained zs r) = refl
  before-nil too_long = refl
  before-nil malformed = refl
  before-nil out_of_fuel = refl

  left_over :
      (d : Drained E) (bytes more : List ℕ) (xs : List E) (r : List ℕ) (f g : ℕ)
      → d ≡ drained [] bytes
      → d ≡ drained xs r
      → length (bytes ++ more) < f
      → length (r ++ more) < g
      → drain_loop f decode limit (bytes ++ more)
        ≡ before xs (drain_loop g decode limit (r ++ more))
  unfolding left found
  left_over d bytes more xs r f g e p k l =
      let none_yet : [] ≡ xs = ap found (sym e ∙ p) in
      let same : bytes ≡ r = ap left (sym e ∙ p) in
      let room : length (bytes ++ more) < g = subst (λ b. length (b ++ more) < g) (sym same) l in
      loop_fuel f g (bytes ++ more) k room
      ∙ ap (λ b. drain_loop g decode limit (b ++ more)) same
      ∙ sym (before-nil (drain_loop g decode limit (r ++ more)))
      ∙ ap (λ ys. before ys (drain_loop g decode limit (r ++ more))) none_yet

  loop-append :
      (f g h : ℕ) (bytes more : List ℕ) (xs : List E) (r : List ℕ)
      → length bytes < f
      → length (bytes ++ more) < g
      → length (r ++ more) < h
      → drain_loop f decode limit bytes ≡ drained xs r
      → drain_loop g decode limit (bytes ++ more)
        ≡ before xs (drain_loop h decode limit (r ++ more))
  loop-append zero g h bytes more xs r k l m p = absurd (omega arith)
  loop-append (suc f) zero h bytes more xs r k l m p = absurd (omega arith)
  loop-append (suc f) (suc g) h bytes more xs r k l m p = elim (front bytes) [
    | short e ↦ left_over _ bytes more xs r (suc g) h (step_short f bytes e) p l m
    | long n rest e o ↦ absurd (never (sym (step_long f n bytes rest e o) ∙ p))
    | waiting n rest e o w ↦
        left_over _ bytes more xs r (suc g) h (step_wait f n bytes rest e o w) p l m
    | bad n rest e o w d ↦ absurd (never' (sym (step_bad f n bytes rest e o w d) ∙ p))
    | whole n rest x e o w d ↦
        let (ys, q, s) =
          before_inv x (drain_loop f decode limit (drop n rest)) xs r
            (sym (step_frame f n bytes rest x e o w d) ∙ p) in
        let less = read_u32-length bytes rest n e in
        let shape : drop n (rest ++ more) ≡ drop n rest ++ more = drop-append n rest more w in
        let size : length (drop n rest ++ more) < g = omega (
          arith,
          less,
          length-drop n rest,
          length-append (drop n rest) more,
          length-append bytes more,
        ) in
        step_frame g n (bytes ++ more) (rest ++ more) x (read_u32-append bytes rest more n e) o
          (omega (arith, length-append rest more)) (ap decode (take-append n rest more w) ∙ d)
        ∙ ap (λ b. before (x ∷ []) (drain_loop g decode limit b)) shape
        ∙ ap (before (x ∷ [])) (
            loop-append f g h (drop n rest) more ys r (omega (arith, less, length-drop n rest)) size
              m q)
        ∙ before-before (x ∷ []) ys (drain_loop h decode limit (r ++ more))
        ∙ ap (λ l. before l (drain_loop h decode limit (r ++ more))) (sym s)
  ]
    where
      never : too_long ≡ drained xs r → ⊥
      never e = cc

      never' : malformed ≡ drained xs r → ⊥
      never' e = cc

  pub drain-before :
      (buffer more rest : List ℕ) (es : List E)
      → drain decode limit buffer ≡ drained es rest
      → drain decode limit (buffer ++ more) ≡ before es (drain decode limit (rest ++ more))
  unfolding drain
  drain-before buffer more rest es e =
      loop-append (suc (length buffer)) (suc (length (buffer ++ more)))
        (suc (length (rest ++ more))) buffer more es rest (omega arith) (omega arith) (omega arith)
        e

  loop-Ended :
      (fuel : ℕ) (bytes : List ℕ) → length bytes < fuel → Ended (drain_loop fuel decode limit bytes)
  loop-Ended zero bytes k = absurd (omega arith)
  loop-Ended (suc fuel) bytes k = elim (front bytes) [
    | short e ↦ subst Ended (sym (step_short fuel bytes e)) tt
    | long n rest e o ↦ subst Ended (sym (step_long fuel n bytes rest e o)) tt
    | waiting n rest e o w ↦ subst Ended (sym (step_wait fuel n bytes rest e o w)) tt
    | bad n rest e o w d ↦ subst Ended (sym (step_bad fuel n bytes rest e o w d)) tt
    | whole n rest x e o w d ↦
        let less = read_u32-length bytes rest n e in
        let later = loop-Ended fuel (drop n rest) (omega (arith, less, length-drop n rest)) in
        subst Ended (sym (step_frame fuel n bytes rest x e o w d))
          (before-Ended (x ∷ []) (drain_loop fuel decode limit (drop n rest)) later)
  ]

  -- The form of the theorems on streams.
  pub drain-Joined :
      (es : List E) (bytes more : List ℕ)
      → drain decode limit bytes ≡ before es (drain decode limit more)
      → Ended (drain decode limit more)
        × Joined es (drain decode limit more) (drain decode limit bytes)
  unfolding drain
  drain-Joined es bytes more e = (
    loop-Ended (suc (length more)) more (omega arith),
    before-Joined es (drain decode limit more) (drain decode limit bytes) e,
  )

  -- Let a buffer be drained without an error, and later what it left with the bytes that came. If
  -- that succeeds too, one draining of all the bytes gives the envelopes of both, in order, and the
  -- same rest. If it is an error, one draining of all the bytes is the same error, and so gives
  -- no envelope, not even those of the first piece. No draining runs out of fuel.
  pub drain-append :
      (buffer more rest : List ℕ) (es : List E)
      → drain decode limit buffer ≡ drained es rest
      → Ended (drain decode limit (rest ++ more))
        × Joined es (drain decode limit (rest ++ more)) (drain decode limit (buffer ++ more))
  drain-append buffer more rest es e =
      drain-Joined es (buffer ++ more) (rest ++ more) (drain-before buffer more rest es e)
