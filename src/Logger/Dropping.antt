-- ===== src/Logger/Dropping.antt =====
-- Every dropped line is reported once.
use rskynet.Base.{
  ℕ, suc, ◌+◌, ◌≤◌, ◌≡◌, refl, arith, not, ◌&&◌, List, [], ◌∷◌, leb, ◌==◌, Bool-cases, inl, inr,
  length, min, u64_max,
}
use rskynet.Logger.{Backpressure, LogDecision, drops, writes, decide}

-- The decisions on a sequence of messages, by the queue that each finds.
unfoldable pub decide_all : Backpressure → List ℕ → List LogDecision × Backpressure
unfolding decide
decide_all b [] = ([], b)
decide_all b (q ∷ qs) = let (d, c) = decide b q in let (ds, e) = decide_all c qs in (d ∷ ds, e)

-- The drops among decisions, and the drops that the writes report.
abbrev pub drops_of : List LogDecision → ℕ
drops_of [] = 0
drops_of (drops ∷ ds) = suc (drops_of ds)
drops_of (writes n ∷ ds) = drops_of ds

abbrev pub reported_by : List LogDecision → ℕ
reported_by [] = 0
reported_by (drops ∷ ds) = reported_by ds
reported_by (writes n ∷ ds) = n + reported_by ds

-- Over any sequence of messages, the lines dropped are those that the writes report and those that
-- still wait for a report, and each message is decided on; the limit of the queue stays. The count
-- must be short of its 64 bits at the start by the number of messages.
pub drops_are_reported :
    (b : Backpressure) (queues : List ℕ)
    → b.dropped + length queues ≤ u64_max
    → let (ds, c) = decide_all b queues in
      (b.dropped + drops_of ds ≡ reported_by ds + c.dropped)
      × (length ds ≡ length queues)
      × (c.max_queue ≡ b.max_queue)
unfolding decide_all decide
drops_are_reported b [] k = (omega arith, refl, refl)
drops_are_reported b (q ∷ qs) k = elim (Bool-cases (not (b.max_queue == 0) && leb b.max_queue q)) [
  | inl over ↦
      let (a, l, m) =
        drops_are_reported (record b { dropped = min (b.dropped + 1) u64_max }) qs (omega arith) in
      rw over (omega arith, omega arith, m)
  | inr room ↦
      let (a, l, m) = drops_are_reported (record b { dropped = 0 }) qs (omega arith) in
      rw room (omega arith, omega arith, m)
]
