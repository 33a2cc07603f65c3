-- ===== src/Cluster/Wire/Examples.antt =====
-- Streams of envelopes that are lists of bytes themselves.
use rskynet.Base.{ℕ, ◌≡◌, refl, List, [], ◌∷◌, ◌++◌, some}
use rskynet.Cluster.Wire.{frame, drained, too_long, drain}
use rskynet.Cluster.Wire.Stream.{Ended, Joined, drain-append}
use rskynet.Cluster.Wire.RoundTrip.{drain-frames}

abbrev as_is : List ℕ → List ℕ
as_is bytes = bytes

abbrev stream : List ℕ
stream = 0 ∷ 0 ∷ 0 ∷ 2 ∷ 7 ∷ 8 ∷ 0 ∷ 0 ∷ 0 ∷ 0 ∷ []

framed : frame as_is (7 ∷ 8 ∷ []) 1024 ≡ some (0 ∷ 0 ∷ 0 ∷ 2 ∷ 7 ∷ 8 ∷ [])
unfolding frame
framed = refl

waits_for_more : drain some 1024 (0 ∷ 0 ∷ 0 ∷ 2 ∷ 7 ∷ []) ≡ drained [] (0 ∷ 0 ∷ 0 ∷ 2 ∷ 7 ∷ [])
unfolding drain
waits_for_more = refl

oversized : drain {E = List ℕ} some 1024 (0 ∷ 0 ∷ 4 ∷ 1 ∷ []) ≡ too_long
unfolding drain
oversized = refl

drain-append_example :
    Ended (drain some 1024 ((0 ∷ 0 ∷ 0 ∷ 2 ∷ 7 ∷ []) ++ 8 ∷ []))
    × Joined []
        (drain some 1024 ((0 ∷ 0 ∷ 0 ∷ 2 ∷ 7 ∷ []) ++ 8 ∷ []))
        (drain some 1024 ((0 ∷ 0 ∷ 0 ∷ 2 ∷ 7 ∷ []) ++ 8 ∷ []))
drain-append_example =
    drain-append some 1024 (0 ∷ 0 ∷ 0 ∷ 2 ∷ 7 ∷ []) (8 ∷ []) (0 ∷ 0 ∷ 0 ∷ 2 ∷ 7 ∷ []) []
      waits_for_more

drain-frames_example :
    Ended {E = List ℕ} (drain some 1024 (9 ∷ []))
    × Joined
        ((7 ∷ 8 ∷ []) ∷ [] ∷ [])
        (drain some 1024 (9 ∷ []))
        (drain some 1024 (stream ++ 9 ∷ []))
drain-frames_example =
    drain-frames as_is some 1024 ((7 ∷ 8 ∷ []) ∷ [] ∷ []) stream (9 ∷ []) (λ e. refl)
      (unfold frame in refl)
