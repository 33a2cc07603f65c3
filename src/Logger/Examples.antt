-- ===== src/Logger/Examples.antt =====
-- Runs of the logger's decisions, and the theorems on them.
use rskynet.Base.{ℕ, ◌≤◌, ◌<◌, ◌≡◌, ◌⊎◌, refl, arith, true, false, [], ◌∷◌, some}
use rskynet.Base.Pigeonhole.{contains}
use rskynet.Logger.{
  LogFile, RotationConfig, Backpressure, drops, writes, decide, unused, next_log_path, write,
}
use rskynet.Logger.Dropping.{decide_all}
use rskynet.Logger.Rotation.{FitsIn, IsDue, next_log_path_lem, write_lem}

abbrev pressed : Backpressure
pressed = record { max_queue = 2; dropped = 0 }

flood : (decide_all pressed (3 ∷ 2 ∷ 1 ∷ 0 ∷ [])).0 ≡ drops ∷ drops ∷ writes 2 ∷ writes 0 ∷ []
unfolding decide_all decide
flood = refl

next_log_path_lem_example :
    (n : ℕ) × (next_log_path 4 1 (λ i. some (contains i (1 ∷ 2 ∷ 4 ∷ []))) ≡ unused n)
    × (contains n (1 ∷ 2 ∷ 4 ∷ []) ≡ false)
    × ((i : ℕ) → 1 ≤ i → i < n → contains i (1 ∷ 2 ∷ 4 ∷ []) ≡ true)
next_log_path_lem_example = next_log_path_lem (1 ∷ 2 ∷ 4 ∷ [])

-- Files that are named by their numbers, on the days 7 and 8.
abbrev old_file : LogFile ℕ
old_file = record { path = 1; date = 7; len = 90 }

abbrev new_file : LogFile ℕ
new_file = record { path = 2; date = 8; len = 0 }

abbrev small_files : RotationConfig
small_files = record { rotate_daily = true; max_file_size = 100 }

turns :
    write (some new_file) true 19 0 8 small_files (some old_file)
    ≡ some (record new_file { len = 20 })
unfolding write
turns = refl

write_lem_example :
    (f : LogFile ℕ) × (write (some new_file) true 19 0 8 small_files (some old_file) ≡ some f)
    × ((IsDue small_files 8 19 old_file × (f ≡ record new_file { len = 20 }))
        ⊎ (¬ IsDue small_files 8 19 old_file × (f ≡ record old_file { len = 110 })))
    × FitsIn small_files 8 19 f
write_lem_example = write_lem new_file old_file 19 0 8 small_files refl refl (omega arith)
