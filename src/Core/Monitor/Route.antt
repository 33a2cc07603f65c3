-- ===== src/Core/Monitor/Route.antt =====
-- A watcher never sees the handles of two different writes.
use rskynet.Base.{
  ℕ, suc, ◌+◌, ◌%◌, ◌≤◌, ◌<◌, ◌≡◌, refl, sym, ap, ap₂, subst, arith, List, ◌∷◌, Occurs,
  wrapping_add, u64_mod, some,
}
use rskynet.Core.Monitor.{
  Writer, calm, opened, half, full, Reader, starts, has_seq, has_source, has_both, returns, System,
  Step, Reachable, bumps_version, opens, stores_source, stores_destination, closes, reads_seq,
  reads_source, reads_destination, accepts, retries, begins, then_steps, new,
}

-- What the writer's place says of the sequence number and of the pair.
abbrev WriterOk : Writer → ℕ → ℕ → ℕ → List (ℕ × ℕ) → Type 0
WriterOk calm n s d ps = (n % 2 ≡ 0) × Occurs (s, d) ps
WriterOk (opened a b) n s d ps = n % 2 ≡ 1
WriterOk (half a b) n s d ps = (n % 2 ≡ 1) × (s ≡ a)
WriterOk (full a b) n s d ps = (n % 2 ≡ 1) × (s ≡ a) × (d ≡ b)

-- What the reader has read is what stands there, if the number did not move.
abbrev ReaderOk : Reader → ℕ → ℕ → ℕ → List (ℕ × ℕ) → Type 0
ReaderOk starts n s d ps = 0 ≤ n
ReaderOk (has_seq m) n s d ps = (m % 2 ≡ 0) × (m ≤ n)
ReaderOk (has_source m a) n s d ps = (m % 2 ≡ 0) × (m ≤ n) × (n ≡ m → a ≡ s)
ReaderOk (has_both m a b) n s d ps = (m % 2 ≡ 0) × (m ≤ n) × (n ≡ m → (a ≡ s) × (b ≡ d))
ReaderOk (returns a b) n s d ps = Occurs (a, b) ps

abbrev WriterAs : Writer → System → Type 0
WriterAs w s =
    WriterOk w s.shared.route_seq s.shared.route_source s.shared.route_destination s.published

abbrev ReaderAs : Reader → System → Type 0
ReaderAs r s =
    ReaderOk r s.shared.route_seq s.shared.route_source s.shared.route_destination s.published

record IsSound (s : System) : Type 0 where
  pub counted : s.shared.route_seq ≡ s.bumps
  pub writes : WriterAs s.writer s
  pub reads : ReaderAs s.reader s

-- A write of the number moves the reader's past.
moved-reader :
    (r : Reader) (n s d s' d' : ℕ) (ps : List (ℕ × ℕ))
    → ReaderOk r n s d ps
    → ReaderOk r (n + 1) s' d' ps
moved-reader starts n s d s' d' ps k = omega arith
moved-reader (has_seq m) n s d s' d' ps (a, b) = (a, omega arith)
moved-reader (has_source m x) n s d s' d' ps (a, b, c) = (a, omega arith, λ e. absurd (omega arith))
moved-reader (has_both m x y) n s d s' d' ps (a, b, c) = (a, omega arith, λ e. absurd (omega arith))
moved-reader (returns x y) n s d s' d' ps o = o

-- While the number is odd, the stores do not matter to the reader.
odd-reader :
    (r : Reader) (n s d s' d' : ℕ) (ps : List (ℕ × ℕ))
    → n % 2 ≡ 1
    → ReaderOk r n s d ps
    → ReaderOk r n s' d' ps
odd-reader starts n s d s' d' ps odd k = k
odd-reader (has_seq m) n s d s' d' ps odd k = k
odd-reader (has_source m x) n s d s' d' ps odd (a, b, c) = (a, b, λ e. absurd (omega arith))
odd-reader (has_both m x y) n s d s' d' ps odd (a, b, c) = (a, b, λ e. absurd (omega arith))
odd-reader (returns x y) n s d s' d' ps odd o = o

-- A pair more was published.
more-reader :
    (r : Reader) (n s d : ℕ) (p : ℕ × ℕ) (ps : List (ℕ × ℕ))
    → ReaderOk r n s d ps
    → ReaderOk r n s d (p ∷ ps)
more-reader starts n s d p ps k = k
more-reader (has_seq m) n s d p ps k = k
more-reader (has_source m x) n s d p ps k = k
more-reader (has_both m x y) n s d p ps k = k
more-reader (returns x y) n s d p ps (i, e) = (suc i, e)

even-calm :
    (w : Writer) (s : System)
    → s.shared.route_seq % 2 ≡ 0
    → WriterAs w s
    → Occurs (s.shared.route_source, s.shared.route_destination) s.published
even-calm calm s e (a, b) = b
even-calm (opened x y) s e a = absurd (omega arith)
even-calm (half x y) s e (a, b) = absurd (omega arith)
even-calm (full x y) s e (a, b, c) = absurd (omega arith)

no_wrap : (n : ℕ) → n + 1 < u64_mod → wrapping_add n 1 ≡ n + 1
no_wrap n k = omega arith

Step-IsSound : (s t : System) → Step s t → t.bumps < u64_mod → IsSound s → IsSound t
Step-IsSound s _ (bumps_version _) k v = record {
  counted = v.counted;
  writes = v.writes;
  reads = v.reads;
}
Step-IsSound s _ (opens _ a b w) k v =
    let up : wrapping_add s.shared.route_seq 1 ≡ s.shared.route_seq + 1 =
      no_wrap s.shared.route_seq (omega (arith, v.counted)) in
    let at : WriterAs calm s = subst (λ x. WriterAs x s) w v.writes in
    record {
      counted = omega (arith, v.counted, up);
      writes = omega (arith, at.0, up);
      reads =
          subst
            (λ x. ReaderOk s.reader x s.shared.route_source s.shared.route_destination s.published)
            (sym up)
            (moved-reader s.reader s.shared.route_seq s.shared.route_source
              s.shared.route_destination s.shared.route_source s.shared.route_destination
              s.published v.reads);
    }
Step-IsSound s _ (stores_source _ a b w) k v =
    let at : WriterAs (opened a b) s = subst (λ x. WriterAs x s) w v.writes in
    record {
      counted = v.counted;
      writes = (at, refl);
      reads =
          odd-reader s.reader s.shared.route_seq s.shared.route_source s.shared.route_destination a
            s.shared.route_destination s.published at v.reads;
    }
Step-IsSound s _ (stores_destination _ a b w) k v =
    let at : WriterAs (half a b) s = subst (λ x. WriterAs x s) w v.writes in
    record {
      counted = v.counted;
      writes = (at.0, at.1, refl);
      reads =
          odd-reader s.reader s.shared.route_seq s.shared.route_source s.shared.route_destination
            s.shared.route_source b s.published at.0 v.reads;
    }
Step-IsSound s _ (closes _ a b w) k v =
    let up : wrapping_add s.shared.route_seq 1 ≡ s.shared.route_seq + 1 =
      no_wrap s.shared.route_seq (omega (arith, v.counted)) in
    let (odd, src, dst) : WriterAs (full a b) s = subst (λ x. WriterAs x s) w v.writes in
    record {
      counted = omega (arith, v.counted, up);
      writes = (omega (arith, odd, up), (0, ap some (ap₂ (λ x y. (x, y)) (sym src) (sym dst))));
      reads =
          more-reader s.reader (wrapping_add s.shared.route_seq 1) s.shared.route_source
            s.shared.route_destination (a, b) s.published
            (subst
              (λ x.
                ReaderOk s.reader x s.shared.route_source s.shared.route_destination s.published)
              (sym up)
              (moved-reader s.reader s.shared.route_seq s.shared.route_source
                s.shared.route_destination s.shared.route_source s.shared.route_destination
                s.published v.reads));
    }
Step-IsSound s _ (reads_seq _ r even) k v = record {
  counted = v.counted;
  writes = v.writes;
  reads = (even, omega arith);
}
Step-IsSound s _ (reads_source _ n r) k v =
    let at : ReaderAs (has_seq n) s = subst (λ x. ReaderAs x s) r v.reads in
    record { counted = v.counted; writes = v.writes; reads = (at.0, at.1, λ e. refl) }
Step-IsSound s _ (reads_destination _ n a r) k v =
    let at : ReaderAs (has_source n a) s = subst (λ x. ReaderAs x s) r v.reads in
    record { counted = v.counted; writes = v.writes; reads = (at.0, at.1, λ e. (at.2 e, refl)) }
Step-IsSound s _ (accepts _ n a b r e) k v =
    let (even, low, same) : ReaderAs (has_both n a b) s = subst (λ x. ReaderAs x s) r v.reads in
    let whole = even-calm s.writer s (omega (arith, even, e)) v.writes in
    let (x, y) = same e in
    record {
      counted = v.counted;
      writes = v.writes;
      reads = subst (λ p. Occurs p s.published) (ap₂ (λ p q. (p, q)) (sym x) (sym y)) whole;
    }
Step-IsSound s _ (retries _ n a b r e) k v = record {
  counted = v.counted;
  writes = v.writes;
  reads = omega arith;
}

bumps-grow : (s t : System) → Step s t → s.bumps ≤ t.bumps
bumps-grow s _ (bumps_version _) = omega arith
bumps-grow s _ (opens _ a b w) = omega arith
bumps-grow s _ (stores_source _ a b w) = omega arith
bumps-grow s _ (stores_destination _ a b w) = omega arith
bumps-grow s _ (closes _ a b w) = omega arith
bumps-grow s _ (reads_seq _ r even) = omega arith
bumps-grow s _ (reads_source _ n r) = omega arith
bumps-grow s _ (reads_destination _ n a r) = omega arith
bumps-grow s _ (accepts _ n a b r e) = omega arith
bumps-grow s _ (retries _ n a b r e) = omega arith

Reachable-IsSound : (s : System) → Reachable s → s.bumps < u64_mod → IsSound s
unfolding new
Reachable-IsSound _ begins k = record {
  counted = refl;
  writes = (refl, (0, refl));
  reads = omega arith;
}
Reachable-IsSound _ (then_steps s t r e) k =
    Step-IsSound s t e k (Reachable-IsSound s r (omega (arith, bumps-grow s t e)))

-- However the worker's writes and the watcher's reads interleave, up to 2^64 - 1 changes of the
-- sequence number, the pair that `read_route` returns was written whole by one `begin` or `finish`,
-- or is the initial one.
pub routes_are_whole :
    (s : System) (a b : ℕ)
    → Reachable s
    → s.bumps < u64_mod
    → s.reader ≡ returns a b
    → Occurs (a, b) s.published
routes_are_whole s a b r k e =
    let v : IsSound s = Reachable-IsSound s r k in subst (λ x. ReaderAs x s) e v.reads
