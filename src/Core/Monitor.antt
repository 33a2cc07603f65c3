-- ===== src/Core/Monitor.antt =====
-- crates/rskynet-core/src/monitor.rs: the progress of one worker, which a watching thread reads. The
-- worker alone writes; the pair of handles that it routes between is two atomics under a sequence
-- number. `begin`, `finish` and `check` are their atomic steps in order; `read_route` is given as
-- steps of a reader between those of the writer.
pub mod Route
mod Examples
use rskynet.Base.{
  ℕ, suc, ◌+◌, ◌%◌, ◌≡◌, ◌≢◌, Bool, List, [], ◌∷◌, Option, none, some, ◌==◌, if◌then◌else◌,
  wrapping_add,
}

pub record Monitor : Type 0 where
  pub version : ℕ
  pub checked : ℕ
  pub route_source : ℕ
  pub route_destination : ℕ
  pub route_seq : ℕ

unfoldable pub new : Monitor
new = record { version = 0; checked = 0; route_source = 0; route_destination = 0; route_seq = 0 }

-- The atomic steps of the writer.
abbrev pub bump_version : Monitor → Monitor
bump_version m = record m { version = wrapping_add m.version 1 }

abbrev pub bump_seq : Monitor → Monitor
bump_seq m = record m { route_seq = wrapping_add m.route_seq 1 }

abbrev pub store_source : ℕ → Monitor → Monitor
store_source s m = record m { route_source = s }

abbrev pub store_destination : ℕ → Monitor → Monitor
store_destination d m = record m { route_destination = d }

unfoldable pub begin : ℕ → ℕ → Monitor → Monitor
begin s d m = bump_seq (store_destination d (store_source s (bump_seq (bump_version m))))

unfoldable pub finish : Monitor → Monitor
finish m = bump_version (bump_seq (store_destination 0 (store_source 0 (bump_seq m))))

-- The end of `check`, from the versions before and after the route was read.
unfoldable pub verdict : ℕ → ℕ → ℕ × ℕ → Monitor → Option (ℕ × ℕ × ℕ) × Monitor
verdict before after (source, destination) m =
    if before == after
    then (if after == m.checked
        then ((if destination == 0 then none else some (source, destination, after)), m)
        else (none, record m { checked = after }))
    else (none, record m { checked = after })

-- `check` with no write in between.
unfoldable pub check : Monitor → Option (ℕ × ℕ × ℕ) × Monitor
unfolding verdict
check m = verdict m.version m.version (m.route_source, m.route_destination) m

-- Where the writer stands in its write of a pair, and the reader in its loop.
pub data Writer : Type 0 where
  calm : Writer
  opened : ℕ → ℕ → Writer
  half : ℕ → ℕ → Writer
  full : ℕ → ℕ → Writer

pub data Reader : Type 0 where
  starts : Reader
  has_seq : ℕ → Reader
  has_source : ℕ → ℕ → Reader
  has_both : ℕ → ℕ → ℕ → Reader
  returns : ℕ → ℕ → Reader

-- The pairs that were written whole stand in `published`; `bumps` counts the changes of the sequence
-- number.
pub record System : Type 0 where
  pub shared : Monitor
  pub writer : Writer
  pub reader : Reader
  pub published : List (ℕ × ℕ)
  pub bumps : ℕ

abbrev pub start : System
start = record { shared = new; writer = calm; reader = starts; published = (0, 0) ∷ []; bumps = 0 }

-- One atomic step of the worker's `begin` or `finish`, or of the watcher's `read_route`.
pub data Step : System → System → Type 0 where
  bumps_version : (s : System) → Step s (record s { shared = bump_version s.shared })
  opens :
      (s : System) (a b : ℕ)
      → s.writer ≡ calm
      → Step s (record s { shared = bump_seq s.shared; writer = opened a b; bumps = suc s.bumps })
  stores_source :
      (s : System) (a b : ℕ)
      → s.writer ≡ opened a b
      → Step s (record s { shared = store_source a s.shared; writer = half a b })
  stores_destination :
      (s : System) (a b : ℕ)
      → s.writer ≡ half a b
      → Step s (record s { shared = store_destination b s.shared; writer = full a b })
  closes :
      (s : System) (a b : ℕ)
      → s.writer ≡ full a b
      → Step s (record s {
        shared = bump_seq s.shared;
        writer = calm;
        published = (a, b) ∷ s.published;
        bumps = suc s.bumps;
      })
  reads_seq :
      (s : System)
      → s.reader ≡ starts
      → s.shared.route_seq % 2 ≡ 0
      → Step s (record s { reader = has_seq s.shared.route_seq })
  reads_source :
      (s : System) (n : ℕ)
      → s.reader ≡ has_seq n
      → Step s (record s { reader = has_source n s.shared.route_source })
  reads_destination :
      (s : System) (n a : ℕ)
      → s.reader ≡ has_source n a
      → Step s (record s { reader = has_both n a s.shared.route_destination })
  accepts :
      (s : System) (n a b : ℕ)
      → s.reader ≡ has_both n a b
      → s.shared.route_seq ≡ n
      → Step s (record s { reader = returns a b })
  retries :
      (s : System) (n a b : ℕ)
      → s.reader ≡ has_both n a b
      → s.shared.route_seq ≢ n
      → Step s (record s { reader = starts })

pub data Reachable : System → Type 0 where
  begins : Reachable start
  then_steps : (s t : System) → Reachable s → Step s t → Reachable t
