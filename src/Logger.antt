-- ===== src/Logger.antt =====
-- crates/rskynet-logger/src/lib.rs: when the log goes on in a new file, under which name, and which
-- lines are dropped under load. The file system answers by values that are passed in: whether a
-- candidate name exists, the file that was opened, whether a write went through. A day is a number,
-- a path a value of any type.
pub mod Rotation
pub mod Dropping
mod Examples
use rskynet.Base.{
  ℕ, zero, suc, ◌+◌, Bool, true, false, not, ◌&&◌, ◌||◌, List, [], ◌∷◌, Option, none, some, ltb,
  leb, ◌==◌, if◌then◌else◌, saturating_add,
}

pub record LogFile (Path_name : Type 0) : Type 0 where
  pub path : Path_name
  pub date : ℕ
  pub len : ℕ

pub record RotationConfig : Type 0 where
  pub rotate_daily : Bool
  pub max_file_size : ℕ

pub record Backpressure : Type 0 where
  pub max_queue : ℕ
  pub dropped : ℕ

pub data LogDecision : Type 0 where
  drops : LogDecision
  writes : ℕ → LogDecision

-- The queue behind the message that is decided on holds `queued` others.
unfoldable pub decide : Backpressure → ℕ → LogDecision × Backpressure
decide b queued =
    if not (b.max_queue == 0) && leb b.max_queue queued
    then (drops, record b { dropped = saturating_add b.dropped 1 })
    else (writes b.dropped, record b { dropped = 0 })

-- What the search for a name gives: a sequence number, an I/O error, or no end of the fuel given.
pub data Candidate : Type 0 where
  unused : ℕ → Candidate
  unreadable : Candidate
  out_of_fuel : Candidate

-- The loop of `next_log_path` from a sequence number on; `try_exists` says of the file with a number
-- whether it exists, if the file system can tell.
unfoldable pub next_log_path : ℕ → ℕ → (ℕ → Option Bool) → Candidate
next_log_path zero sequence try_exists = out_of_fuel
next_log_path (suc fuel) sequence try_exists = elim (try_exists sequence) [
  | none ↦ unreadable
  | some false ↦ unused sequence
  | some true ↦ next_log_path fuel (sequence + 1) try_exists
]

module _ {Path_name : Type 0} where
  unfoldable pub should_rotate : LogFile Path_name → ℕ → ℕ → RotationConfig → Bool
  should_rotate file now next_line_len config =
      (config.rotate_daily && not (file.date == now))
      || (not (config.max_file_size == 0)
          && not (file.len == 0)
          && ltb config.max_file_size (saturating_add file.len next_line_len))

  abbrev pub needs_rotation : Option (LogFile Path_name) → ℕ → ℕ → RotationConfig → Bool
  needs_rotation none now next_line_len config = false
  needs_rotation (some file) now next_line_len config = should_rotate file now next_line_len config

  -- The file of the logger after `rotate_if_needed`, and whether it succeeded; `opened` is what
  -- `open_new` gets, with `none` for its error.
  unfoldable pub rotate_if_needed :
      Option (LogFile Path_name)
      → Option (LogFile Path_name)
      → ℕ
      → ℕ
      → RotationConfig
      → Bool × Option (LogFile Path_name)
  unfolding should_rotate
  rotate_if_needed opened file now next_line_len config =
      if needs_rotation file now next_line_len config
      then elim opened [ none ↦ (false, file) | some f ↦ (true, some f) ]
      else (true, file)

  -- A line of `line_len` bytes and its end; `went` says whether the write went through.
  abbrev pub write_unrotated : Bool → ℕ → Option (LogFile Path_name) → Option (LogFile Path_name)
  write_unrotated went line_len none = none
  write_unrotated went line_len (some f) =
      if went then some (record f { len = saturating_add f.len (line_len + 1) }) else some f

  -- `write`: an error of the rotation is itself a line of `error_len` bytes.
  unfoldable pub write :
      Option (LogFile Path_name)
      → Bool
      → ℕ
      → ℕ
      → ℕ
      → RotationConfig
      → Option (LogFile Path_name)
      → Option (LogFile Path_name)
  unfolding rotate_if_needed
  write opened went line_len error_len now config file =
      let (turned, f) = rotate_if_needed opened file now (line_len + 1) config in
      if turned
      then write_unrotated went line_len f
      else write_unrotated went line_len (write_unrotated went error_len f)
