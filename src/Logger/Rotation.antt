-- ===== src/Logger/Rotation.antt =====
-- The size and the day of the current file, and the name of the next.
use rskynet.Base.{
  ℕ, zero, suc, ◌+◌, ◌≤◌, ◌<◌, ◌≡◌, ◌≢◌, refl, sym, ap, ◌∙◌, arith, Bool, true, false, List, some,
  ◌==◌, Bool-cases, inl, inr, length, u64_max, ◌⊎◌, saturating_add, true_ne_false,
}
use rskynet.Base.Pigeonhole.{contains, free_candidate}
use rskynet.Logger.{
  LogFile, RotationConfig, unused, next_log_path, should_rotate, rotate_if_needed, write,
}

-- The first number from `sequence` on that is not taken.
search_lem :
    (fuel sequence free : ℕ) (taken : ℕ → Bool)
    → sequence ≤ free
    → free < sequence + fuel
    → taken free ≡ false
    → (n : ℕ) × (next_log_path fuel sequence (λ i. some (taken i)) ≡ unused n)
      × (taken n ≡ false)
      × (sequence ≤ n)
      × ((i : ℕ) → sequence ≤ i → i < n → taken i ≡ true)
unfolding next_log_path
search_lem zero sequence free taken low high e = absurd (omega arith)
search_lem (suc fuel) sequence free taken low high e = elim (Bool-cases (taken sequence)) [
  | inr here ↦ (sequence, rw here refl, here, omega arith, λ i a b. absurd (omega arith))
  | inl used ↦
      let further : sequence ≢ free = λ q. true_ne_false (sym used ∙ ap taken q ∙ e) in
      let (n, found, unused_n, past, all) =
        search_lem fuel (sequence + 1) free taken (omega arith) (omega arith) e in
      (
        n,
        (rw used refl) ∙ found,
        unused_n,
        omega arith,
        λ i a b. elim (Bool-cases (i == sequence)) [
          | inl same ↦ ap taken (ground arith) ∙ used
          | inr other ↦ all i (ground arith) b
        ],
      )
]

-- While the file system answers, `next_log_path` ends: among one candidate more than there are log
-- files it finds the least sequence number, from 1 on, that no file has.
pub next_log_path_lem :
    (files : List ℕ)
    → (n : ℕ) × (next_log_path (suc (length files)) 1 (λ i. some (contains i files)) ≡ unused n)
      × (contains n files ≡ false)
      × ((i : ℕ) → 1 ≤ i → i < n → contains i files ≡ true)
next_log_path_lem files =
    let (i, small, free) =
      free_candidate (λ i. 1 + i) (suc (length files)) files
        (λ i j hi hj lt e. absurd (omega arith)) (omega arith) in
    let (n, found, unused_n, past, all) =
      search_lem (suc (length files)) 1 (1 + i) (λ j. contains j files) (omega arith) (omega arith)
        free in
    (n, found, unused_n, all)

module _ {Path_name : Type 0} where
  -- A file that the next line still fits in, or that holds one line only.
  abbrev pub FitsIn : RotationConfig → ℕ → ℕ → LogFile Path_name → Type 0
  FitsIn config now line_len f =
      ((config.max_file_size ≡ 0) ⊎ ((f.len ≤ config.max_file_size) ⊎ (f.len ≡ line_len + 1)))
      × (config.rotate_daily ≡ true → f.date ≡ now)

  -- The file has another day than today, and files are turned daily; or it is not empty and the line
  -- does not fit in it any more.
  abbrev pub IsDue : RotationConfig → ℕ → ℕ → LogFile Path_name → Type 0
  IsDue config now line_len file =
      ((config.rotate_daily ≡ true) × (file.date ≢ now))
      ⊎ ((0 < config.max_file_size)
          × (0 < file.len)
          × (config.max_file_size < file.len + (line_len + 1)))

  -- If a new file can be opened (an empty one of today) and the write goes through, then `write`
  -- counts the bytes of the line and its end exactly. Either the file is due and the line stands alone
  -- in the new file, or it is not and the line stands in the same file behind what it held. The
  -- file written to is within the limit, or holds this line only, or no limit is set; and with
  -- daily rotation it is today's.
  pub write_lem :
      (opened file : LogFile Path_name) (line_len error_len now : ℕ) (config : RotationConfig)
      → opened.len ≡ 0
      → opened.date ≡ now
      → file.len + (line_len + 1) ≤ u64_max
      → (f : LogFile Path_name) × (write
            (some opened)
            true
            line_len
            error_len
            now
            config
            (some file)
          ≡ some f)
        × ((IsDue config now line_len file × (f ≡ record opened { len = line_len + 1 }))
            ⊎ (¬ IsDue config now line_len file
                × (f ≡ record file { len = file.len + (line_len + 1) })))
        × FitsIn config now line_len f
  unfolding write rotate_if_needed should_rotate
  write_lem opened file line_len error_len now config empty today small =
      elim (Bool-cases (should_rotate file now (line_len + 1) config)) [
        | inl rotates ↦ (
          record opened { len = saturating_add opened.len (line_len + 1) },
          rw (write, rotate_if_needed, rotates) refl,
          inl (due rotates, ap (λ (n : ℕ). record opened { len = n }) (counted opened.len empty)),
          (inr (inr (omega arith)), λ e. today),
        )
        | inr stays ↦ (
          record file { len = saturating_add file.len (line_len + 1) },
          rw (write, rotate_if_needed, stays) refl,
          inr (not_due stays, ap (λ (n : ℕ). record file { len = n }) (omega arith)),
          stays_Fits stays,
        )
      ]
    where
      counted : (n : ℕ) → n ≡ 0 → saturating_add n (line_len + 1) ≡ line_len + 1
      counted n e = omega arith

      due : should_rotate file now (line_len + 1) config ≡ true → IsDue config now line_len file
      due rotates = ground arith

      not_due :
          should_rotate file now (line_len + 1) config ≡ false → ¬ IsDue config now line_len file
      not_due stays (inl (daily, other)) = ground arith
      not_due stays (inr (limited, used, long)) = ground arith

      stays_Fits :
          should_rotate file now (line_len + 1) config ≡ false
          → FitsIn config now line_len
              (record file { len = saturating_add file.len (line_len + 1) })
      stays_Fits stays =
          let size : (config.max_file_size ≡ 0)
              ⊎ ((file.len + (line_len + 1) ≤ config.max_file_size) ⊎ (file.len ≡ 0)) =
            ground arith in
          (
            elim size [
              | inl z ↦ inl z
              | inr (inl k) ↦ inr (inl (omega arith))
              | inr (inr z) ↦ inr (inr (omega arith))
            ],
            λ e. ground arith,
          )
