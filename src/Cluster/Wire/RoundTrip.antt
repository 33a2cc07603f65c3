-- ===== src/Cluster/Wire/RoundTrip.antt =====
-- What `frame` writes, `drain` reads.
use mathlib.Core.List.{append_assoc}
use rskynet.Base.{
  ℕ, suc, ◌+◌, ◌*◌, ◌/◌, ◌%◌, ◌≤◌, ◌≡◌, refl, sym, ap, ◌∙◌, arith, List, [], ◌∷◌, ◌++◌, Option,
  none, some, ltb, ◌||◌, length, length-append, take, drop, Bool-cases, inl, inr, some_inj,
  some_ne_none,
}
use rskynet.Cluster.Wire.{u32_max, to_be_bytes, read_u32, frame, before, drain_loop, drain}
use rskynet.Cluster.Wire.Stream.{
  Ended, Joined, drain-Joined, loop_fuel, step_frame, before-nil, before-before,
}

take-append_self : {A : Type 0} (xs ys : List A) → take (length xs) (xs ++ ys) ≡ xs
take-append_self [] ys = refl
take-append_self (x ∷ xs) ys = ap (λ l. x ∷ l) (take-append_self xs ys)

drop-append_self : {A : Type 0} (xs ys : List A) → drop (length xs) (xs ++ ys) ≡ ys
drop-append_self [] ys = refl
drop-append_self (x ∷ xs) ys = drop-append_self xs ys

read_u32-to_be_bytes :
    (n : ℕ) (rest : List ℕ) → n ≤ u32_max → read_u32 (to_be_bytes n ++ rest) ≡ some (n, rest)
read_u32-to_be_bytes n rest k =
    let whole : ((n / 16777216 % 256 * 256 + n / 65536 % 256) * 256 + n / 256 % 256) * 256 + n % 256
        ≡ n =
      omega arith in
    ap (λ m. some (m, rest)) whole

module _ {ℓ} {E : Type ℓ} (encode : E → List ℕ) (decode : List ℕ → Option E) (limit : ℕ) where
  -- The frames of some envelopes, one behind the other.
  abbrev pub frames : List E → Option (List ℕ)
  frames [] = some []
  frames (e ∷ es) = elim (frame encode e limit) [
    | none ↦ none
    | some bytes ↦ elim (frames es) [ none ↦ none | some more ↦ some (bytes ++ more) ]
  ]

  frame_inv :
      (e : E) (bytes : List ℕ)
      → frame encode e limit ≡ some bytes
      → (length (encode e) ≤ limit)
        × (length (encode e) ≤ u32_max)
        × (bytes ≡ to_be_bytes (length (encode e)) ++ encode e)
  unfolding frame
  frame_inv e bytes h =
      elim (Bool-cases (ltb limit (length (encode e)) || ltb u32_max (length (encode e)))) [
        | inl over ↦ absurd (some_ne_none (sym h ∙ (rw (frame, over) refl)))
        | inr fits ↦
            let made : frame encode e limit ≡ some (to_be_bytes (length (encode e)) ++ encode e) =
              rw (frame, fits) refl in
            (ground arith, ground arith, some_inj (sym h ∙ made))
      ]

  -- One frame at the front.
  drain-frame :
      (e : E) (bytes more : List ℕ)
      → ((e : E) → decode (encode e) ≡ some e)
      → frame encode e limit ≡ some bytes
      → drain decode limit (bytes ++ more) ≡ before (e ∷ []) (drain decode limit more)
  unfolding drain
  drain-frame e bytes more inverse h =
      let (small, word, shape) = frame_inv e bytes h in
      let n = length (encode e) in
      let whole : bytes ++ more ≡ to_be_bytes n ++ (encode e ++ more) =
        ap (λ b. b ++ more) shape ∙ append_assoc (to_be_bytes n) (encode e) more in
      let long : length (bytes ++ more) ≡ 4 + (n + length more) =
        ap length whole ∙ omega (arith, length-append (encode e) more) in
      let read : read_u32 (bytes ++ more) ≡ some (n, encode e ++ more) =
        ap read_u32 whole ∙ read_u32-to_be_bytes n (encode e ++ more) word in
      step_frame decode limit (length (bytes ++ more)) n (bytes ++ more) (encode e ++ more) e read
        small (omega (arith, length-append (encode e) more))
        (ap decode (take-append_self (encode e) more) ∙ inverse e)
      ∙ ap (λ b. before (e ∷ []) (drain_loop (length (bytes ++ more)) decode limit b))
          (drop-append_self (encode e) more)
      ∙ ap (before (e ∷ [])) (
          loop_fuel decode limit (length (bytes ++ more)) (suc (length more)) more
            (omega (arith, long)) (omega arith))

  frames-before :
      (es : List E) (bytes more : List ℕ)
      → ((e : E) → decode (encode e) ≡ some e)
      → frames es ≡ some bytes
      → drain decode limit (bytes ++ more) ≡ before es (drain decode limit more)
  frames-before [] bytes more inverse h =
      ap (λ b. drain decode limit (b ++ more)) (sym (some_inj h))
      ∙ sym (before-nil decode limit (drain decode limit more))
  frames-before (e ∷ es) bytes more inverse h =
      go (λ c r. frames-before es c more inverse r) (frame encode e limit) refl (frames es) refl
    where
      go :
          ((c : List ℕ)
            → frames es ≡ some c
            → drain decode limit (c ++ more) ≡ before es (drain decode limit more))
          → (o : Option (List ℕ)) → frame encode e limit ≡ o
          → (p : Option (List ℕ)) → frames es ≡ p
          → drain decode limit (bytes ++ more) ≡ before (e ∷ es) (drain decode limit more)
      go later none q p r = absurd (some_ne_none (sym h ∙ (rw (frames, q) refl)))
      go later (some b) q none r = absurd (some_ne_none (sym h ∙ (rw (frames, q, r) refl)))
      go later (some b) q (some c) r =
          let shape : bytes ≡ b ++ c = some_inj (sym h ∙ (rw (frames, q, r) refl)) in
          ap (λ x. drain decode limit (x ++ more)) shape
          ∙ ap (drain decode limit) (append_assoc b c more)
          ∙ drain-frame e b (c ++ more) inverse q
          ∙ ap (before (e ∷ [])) (later c r)
          ∙ before-before decode limit (e ∷ []) es (drain decode limit more)

  -- With a decoding that undoes the encoding, for the frames of some envelopes followed by any bytes:
  -- if `drain` succeeds on the bytes that follow, then on all of them it gives those envelopes in
  -- order, then what follows gives, and the same rest. If the bytes that follow are an
  -- error, it gives that error and no envelope. The draining does not run out of fuel.
  pub drain-frames :
      (es : List E) (bytes more : List ℕ)
      → ((e : E) → decode (encode e) ≡ some e)
      → frames es ≡ some bytes
      → Ended (drain decode limit more)
        × Joined es (drain decode limit more) (drain decode limit (bytes ++ more))
  drain-frames es bytes more inverse h =
      drain-Joined decode limit es (bytes ++ more) more (frames-before es bytes more inverse h)
