-- ===== src/Net/Buffer/Examples.antt =====
-- Tests of the write queue and the read size, and their theorems at concrete values.
use rskynet.Base.{
  ℕ, ◌*◌, ◌^◌, ◌≤◌, none, ◌≡◌, ◌≢◌, ◌⊎◌, ◌<◌, refl, arith, List, [], ◌∷◌, true, some,
}
use rskynet.Net.Buffer.{Chunk, WriteQueue, push, next, consume, is_empty, new_sizer, observe}
use rskynet.Net.Buffer.Sizer.{observe_all, size_of_history}
use rskynet.Net.Buffer.Stream.{stream, IsCounted, push-stream, consume-stream}

abbrev chunk : List ℕ → Chunk ℕ
chunk bytes = record { bytes = bytes; offset = 0; to = none }

abbrev one_low : WriteQueue ℕ
one_low = record { high = []; low = chunk (1 ∷ 2 ∷ []) ∷ []; size = 2; warn_at = 0 }

abbrev half_sent : Chunk ℕ
half_sent = record { bytes = 5 ∷ 6 ∷ 7 ∷ []; offset = 1; to = none }

abbrev busy : WriteQueue ℕ
busy = record one_low { high = half_sent ∷ []; size = 4; warn_at = 2 }

high_goes_first : stream (push one_low (chunk (8 ∷ 9 ∷ [])) true 100).1 ≡ 8 ∷ 9 ∷ 1 ∷ 2 ∷ []
unfolding push
high_goes_first = refl

next_raises : (next one_low).0 ≡ some (chunk (1 ∷ 2 ∷ []))
unfolding next
next_raises = refl

consume_partly : stream (consume busy 1) ≡ 7 ∷ 1 ∷ 2 ∷ []
unfolding consume
consume_partly = refl

push-stream_example :
    (stream (push one_low (chunk (8 ∷ 9 ∷ [])) true 100).1 ≡ 8 ∷ 9 ∷ 1 ∷ 2 ∷ [])
    × IsCounted (push one_low (chunk (8 ∷ 9 ∷ [])) true 100).1
push-stream_example = push-stream one_low (chunk (8 ∷ 9 ∷ [])) true 100 refl

consume-stream_example :
    (stream (consume busy 2) ≡ 1 ∷ 2 ∷ [])
    × IsCounted (consume busy 2)
    × (is_empty (consume busy 2) ≡ true → (consume busy 2).warn_at ≡ 0)
consume-stream_example = consume-stream busy half_sent [] 2 (omega arith) refl

sizes : (observe (observe (observe (new_sizer 64) 64) 128) 3).size ≡ 128
unfolding observe new_sizer
sizes = refl

size_of_history_example :
    let s = observe_all (new_sizer 64) (64 ∷ 128 ∷ 3 ∷ []) in
    let t = observe s 5 in
    (s.floor ≡ 64)
    × (64 ≤ s.size)
    × ((k : ℕ) × (s.size ≡ 64 * 2 ^ k))
    × ((s.size ≡ 64) ⊎ (s.size ≤ 1000 * 2))
    × (5 ≡ s.size → t.size ≡ s.size * 2)
    × (64 < s.size → 5 * 2 < s.size → t.size * 2 ≡ s.size)
    × (5 ≢ s.size → (s.size ≤ 64) ⊎ (s.size ≤ 5 * 2) → t ≡ s)
size_of_history_example =
    size_of_history 1000 (omega arith) 64 (64 ∷ 128 ∷ 3 ∷ []) 5
      (omega arith, (omega arith, (omega arith, tt))) (omega arith)
