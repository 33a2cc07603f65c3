-- ===== src/Net/Buffer/Stream.antt =====
-- The write queue as the stream of bytes that it still owes the connection.
use mathlib.Core.List.{append-nil, append_assoc}
use rskynet.Base.{
  ℕ, ◌+◌, ◌-◌, ◌≤◌, ◌<◌, ◌≡◌, refl, sym, ap, ap₂, ◌∙◌, arith, List, [], ◌∷◌, ◌++◌, Bool, true,
  false, Bool-cases, inl, inr, some, none, ◌&&◌, true_ne_false, length, length-append, drop,
  length-drop, drop-append, drop-length, drop-drop, leb, ◌==◌, if◌then◌else◌, ◌/◌, ◌*◌, ◌↔◌, ◌⊎◌,
}
use rskynet.Net.Buffer.{
  Chunk, WriteQueue, rest, push, front, next, reset, consume, is_nil, is_empty,
}

module _ {Addr : Type 0} where
  abbrev pub bytes_of : List (Chunk Addr) → List ℕ
  bytes_of [] = []
  bytes_of (c ∷ cs) = rest c ++ bytes_of cs

  -- The high queue first.
  abbrev pub stream : WriteQueue Addr → List ℕ
  stream q = bytes_of q.high ++ bytes_of q.low

  -- `size` is the number of bytes owed.
  abbrev pub IsCounted : WriteQueue Addr → Type 0
  IsCounted q = q.size ≡ length (stream q)

  bytes_of-snoc :
      (cs : List (Chunk Addr)) (c : Chunk Addr) → bytes_of (cs ++ c ∷ []) ≡ bytes_of cs ++ rest c
  bytes_of-snoc [] c = append-nil (rest c)
  bytes_of-snoc (d ∷ cs) c =
      ap (λ l. rest d ++ l) (bytes_of-snoc cs c)
      ∙ sym (append_assoc (rest d) (bytes_of cs) (rest c))

  push_fields :
      (q : WriteQueue Addr) (c : Chunk Addr) (high : Bool) (threshold : ℕ)
      → let (warning, u) = push q c high threshold in
        (u.high ≡ (if high then q.high ++ c ∷ [] else q.high))
        × (u.low ≡ (if high then q.low else q.low ++ c ∷ []))
        × (u.size ≡ q.size + length (rest c))
  unfolding push
  push_fields q c true threshold = ground arith
  push_fields q c false threshold = ground arith

  -- A high chunk goes behind the high bytes and before the low ones, a low chunk behind all; `size`
  -- stays the number of bytes owed.
  pub push-stream :
      (q : WriteQueue Addr) (c : Chunk Addr) (high : Bool) (threshold : ℕ)
      → IsCounted q
      → let u = (push q c high threshold).1 in
        (stream u
          ≡ (if high then bytes_of q.high ++ (rest c ++ bytes_of q.low) else stream q ++ rest c))
        × IsCounted u
  push-stream q c true threshold k =
      let (a, b, s) = push_fields q c true threshold in
      let st : stream (push q c true threshold).1 ≡ bytes_of q.high ++ (rest c ++ bytes_of q.low) =
        ap₂ (λ h l. bytes_of h ++ bytes_of l) a b
        ∙ ap (λ l. l ++ bytes_of q.low) (bytes_of-snoc q.high c)
        ∙ append_assoc (bytes_of q.high) (rest c) (bytes_of q.low) in
      (
        st,
        omega (
          arith,
          ap length st,
          length-append (bytes_of q.high) (rest c ++ bytes_of q.low),
          length-append (rest c) (bytes_of q.low),
          length-append (bytes_of q.high) (bytes_of q.low),
        ),
      )
  push-stream q c false threshold k =
      let (a, b, s) = push_fields q c false threshold in
      let st : stream (push q c false threshold).1 ≡ stream q ++ rest c =
        ap₂ (λ h l. bytes_of h ++ bytes_of l) a b
        ∙ ap (λ l. bytes_of q.high ++ l) (bytes_of-snoc q.low c)
        ∙ sym (append_assoc (bytes_of q.high) (bytes_of q.low) (rest c)) in
      (st, omega (arith, ap length st, length-append (stream q) (rest c)))

  -- A warning is given exactly when the size has reached the threshold and the size set by the
  -- last warning; it reports the size in kilobytes, and the next one waits for the doubled size.
  pub push_warns :
      (q : WriteQueue Addr) (c : Chunk Addr) (high : Bool) (threshold : ℕ)
      → let size = q.size + length (rest c) in
        let (warning, u) = push q c high threshold in
        (threshold ≤ size
          → q.warn_at ≤ size
          → (warning ≡ some (size / 1024))
            × (u.warn_at ≡ (if q.warn_at == 0 then threshold * 2 else q.warn_at * 2)))
        × ((size < threshold) ⊎ (size < q.warn_at) → (warning ≡ none) × (u.warn_at ≡ q.warn_at))
  unfolding push
  push_warns q c true threshold = ground arith
  push_warns q c false threshold = ground arith

  -- Raising a chunk changes no byte of the stream, and finds a chunk unless both queues are empty.
  pub next-stream :
      (q : WriteQueue Addr)
      → let (c, u) = next q in
        (stream u ≡ stream q)
        × (u.size ≡ q.size)
        × (u.warn_at ≡ q.warn_at)
        × ((c ≡ none) ↔ (is_empty q ≡ true))
        × (front u.high ≡ c)
  unfolding next is_empty
  next-stream q = go q.high q.low
    where
      go :
          (h l : List (Chunk Addr))
          → let r = record q { high = h; low = l } in
            let (c, u) = next r in
            (stream u ≡ stream r)
            × (u.size ≡ q.size)
            × (u.warn_at ≡ q.warn_at)
            × ((c ≡ none) ↔ (is_empty r ≡ true))
            × (front u.high ≡ c)
      go [] [] = (refl, refl, refl, (λ e. refl, λ e. refl), refl)
      go [] (c ∷ cs) =
          (append_assoc (rest c) [] (bytes_of cs), refl, refl, (λ e. cc, λ e. cc), refl)
      go (c ∷ cs) l = (refl, refl, refl, (λ e. cc, λ e. cc), refl)

  stream-reset : (q : WriteQueue Addr) → (stream (reset q) ≡ stream q) × ((reset q).size ≡ q.size)
  stream-reset q = elim (Bool-cases (is_nil q.high && is_nil q.low)) [
    | inl p ↦ rw p (refl, refl)
    | inr p ↦ rw p (refl, refl)
  ]

  module _ (q : WriteQueue Addr) (c : Chunk Addr) (cs : List (Chunk Addr)) (written : ℕ) where
    abbrev whole : WriteQueue Addr
    whole = record q { high = c ∷ cs }

    drop_front :
        written ≤ length (rest c)
        → drop written (stream whole) ≡ (drop written (rest c) ++ bytes_of cs) ++ bytes_of q.low
    drop_front le =
        drop-append written (rest c ++ bytes_of cs) (bytes_of q.low)
          (omega (arith, length-append (rest c) (bytes_of cs)))
        ∙ ap (λ l. l ++ bytes_of q.low) (drop-append written (rest c) (bytes_of cs) le)

    consume_front :
        written ≤ length (rest c)
        → (stream (consume whole written) ≡ drop written (stream whole))
          × ((consume whole written).size ≡ q.size - written)
    unfolding consume
    consume_front le = elim (Bool-cases (leb (length c.bytes) (c.offset + written))) [
      | inl p ↦
          let all : drop written (rest c) ≡ [] =
            sym (drop-drop c.offset written c.bytes)
            ∙ drop-length (c.offset + written) c.bytes (ground arith) in
          let (st, sz) = stream-reset (record q { high = cs; size = q.size - written }) in
          rw p (st ∙ sym (drop_front le ∙ ap (λ d. (d ++ bytes_of cs) ++ bytes_of q.low) all), sz)
      | inr p ↦
          let (st, sz) = stream-reset (record q {
            high = record c { offset = c.offset + written } ∷ cs;
            size = q.size - written;
          }) in
          rw p (
            st
                ∙ ap (λ d. (d ++ bytes_of cs) ++ bytes_of q.low)
                    (drop-drop c.offset written c.bytes)
                ∙ sym (drop_front le),
            sz,
          )
    ]

  warn-reset : (q : WriteQueue Addr) → is_empty (reset q) ≡ true → (reset q).warn_at ≡ 0
  unfolding is_empty
  warn-reset q h = elim (Bool-cases (is_nil q.high && is_nil q.low)) [
    | inl p ↦ rw p
    | inr p ↦ absurd (true_ne_false (sym (rw p at h) ∙ p))
  ]

  -- Writing `written` bytes of the front chunk `c`, not more than it has left, with an exact count takes exactly those bytes off the front of the
  -- stream, keeps the count exact, and rearms the warnings when nothing is left.
  pub consume-stream :
      (q : WriteQueue Addr) (c : Chunk Addr) (cs : List (Chunk Addr)) (written : ℕ)
      → let whole = record q { high = c ∷ cs } in
        written ≤ length (rest c)
        → IsCounted whole
        → let u = consume whole written in
          (stream u ≡ drop written (stream whole))
          × IsCounted u
          × (is_empty u ≡ true → u.warn_at ≡ 0)
  unfolding consume
  consume-stream q c cs written le k =
      let (st, sz) = consume_front q c cs written le in
      (
        st,
        omega (arith, k, sz, ap length st, length-drop written (stream (whole q c cs written))),
        rearmed,
      )
    where
      rearmed :
          is_empty (consume (whole q c cs written) written) ≡ true
          → (consume (whole q c cs written) written).warn_at ≡ 0
      rearmed = elim (Bool-cases (leb (length c.bytes) (c.offset + written))) [
        | inl p ↦ rw p (warn-reset (record q { high = cs; size = q.size - written }))
        | inr p ↦ rw p (
            warn-reset (record q {
              high = record c { offset = c.offset + written } ∷ cs;
              size = q.size - written;
            }))
      ]
