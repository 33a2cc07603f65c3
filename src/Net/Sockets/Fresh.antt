-- ===== src/Net/Sockets/Fresh.antt =====
-- `insert` finds a free slot, as long as its scan does not pass the wrap of the ids.
use native.Mathlib.Nat.{mod-lt, mod-eq_of_lt, mul-add-mod_self_right, div-add-mod'}
use rskynet.Base.{
  ℕ, zero, suc, ◌+◌, ◌-◌, ◌*◌, ◌/◌, ◌%◌, ◌<◌, ◌≤◌, ◌≡◌, refl, sym, ap, subst, ◌∙◌, arith, true,
  false, true_ne_false, none, some, Bool-cases, ltb, get_elem?, length, lt_of_get_elem?, inl, inr,
}
use rskynet.Net.Sockets.{
  State, Socket, Sockets, u32_mod, next_id, is_taken, insert_loop, insert, put_at, new_socket,
}

-- Among `c` numbers in a row, one has the remainder `k`.
covers : (n k c : ℕ) → k < c → (j : ℕ) × (j < c) × ((n + j) % c ≡ k)
covers n k c lt = elim (Bool-cases (ltb k (n % c))) [
  | inl low ↦ (
    c + k - n % c,
    (let less : k < n % c = ground arith in omega (arith, bound)),
    ap (λ x. x % c) (below low) ∙ mul-add-mod_self_right (suc (n / c)) c k ∙ mod-eq_of_lt lt,
  )
  | inr high ↦ (
    k - n % c,
    omega arith,
    ap (λ x. x % c) (above high) ∙ mul-add-mod_self_right (n / c) c k ∙ mod-eq_of_lt lt,
  )
]
  where
    bound : n % c < c
    bound = mod-lt n (omega arith)

    below : ltb k (n % c) ≡ true → n + (c + k - n % c) ≡ suc (n / c) * c + k
    below low = let less : k < n % c = ground arith in omega (arith, div-add-mod' n c, bound)

    above : ltb k (n % c) ≡ false → n + (k - n % c) ≡ n / c * c + k
    above high = let more : n % c ≤ k = ground arith in omega (arith, div-add-mod' n c)

module _ {Kind Addr : Type 0} where
  insert_loop-some :
      (rounds j owner : ℕ) (kind : Kind) (state : State) (t : Sockets Kind Addr)
      → j < rounds
      → t.next + rounds ≤ u32_mod
      → is_taken (get_elem? t.slots ((t.next + j) % length t.slots)) ≡ false
      → (s : Socket Kind Addr) × (u : Sockets Kind Addr) × (insert_loop rounds owner kind state t
          ≡ (some s, u))
        × (t.next ≤ s.id)
        × (s.id < t.next + rounds)
  unfolding insert_loop new_socket
  insert_loop-some zero j owner kind state t lt small free = absurd (omega arith)
  insert_loop-some (suc rounds) j owner kind state t lt small free =
      elim (Bool-cases (is_taken (get_elem? t.slots (t.next % length t.slots)))) [
        | inr vacant ↦
            let (socket, done) = put_at t.next owner kind state moved in
            (socket, done, rw (insert_loop, vacant) refl, id_least, id_below)
        | inl taken ↦ later j (λ i. insert_loop-some rounds i owner kind state moved) taken free lt
      ]
    where
      moved : Sockets Kind Addr
      moved = record t { next = next_id t.next }

      id_least : t.next ≤ (put_at t.next owner kind state moved).0.id
      id_least = omega arith

      id_below : (put_at t.next owner kind state moved).0.id < t.next + suc rounds
      id_below = omega arith

      Goal : Type 0
      Goal =
          (s : Socket Kind Addr) × (u : Sockets Kind Addr) × (insert_loop (suc rounds) owner kind
              state t
            ≡ (some s, u))
          × (t.next ≤ s.id)
          × (s.id < t.next + suc rounds)

      later :
          (i : ℕ)
          → ((k : ℕ)
              → k < rounds
              → moved.next + rounds ≤ u32_mod
              → is_taken (get_elem? t.slots ((moved.next + k) % length t.slots)) ≡ false
              → (s : Socket Kind Addr) × (u : Sockets Kind Addr) × (insert_loop rounds owner kind
                    state moved
                  ≡ (some s, u))
                × (moved.next ≤ s.id)
                × (s.id < moved.next + rounds))
          → is_taken (get_elem? t.slots (t.next % length t.slots)) ≡ true
          → is_taken (get_elem? t.slots ((t.next + i) % length t.slots)) ≡ false
          → i < suc rounds
          → Goal
      later zero rec taken free lt =
          let here : is_taken (get_elem? t.slots (t.next % length t.slots)) ≡ false =
            subst (λ n. is_taken (get_elem? t.slots (n % length t.slots)) ≡ false) (omega arith)
              free in
          absurd (true_ne_false (sym taken ∙ here))
      later (suc i) rec taken free lt =
          let up : next_id t.next ≡ t.next + 1 = ground arith in
          let free_there : is_taken (get_elem? t.slots ((next_id t.next + i) % length t.slots))
              ≡ false =
            subst (λ n. is_taken (get_elem? t.slots (n % length t.slots)) ≡ false)
              (omega (arith, up)) free in
          let (s, u, e, least, below) = rec i (omega arith) (omega (arith, up)) free_there in
          (s, u, rw (insert_loop, taken) e, omega (arith, up), omega (arith, up))

  -- From an id on from which as many ids follow as there are slots, without a wrap of the 32 bits:
  -- `insert` gives a socket whenever a slot is free, and its id is at least that id.
  pub insert-some :
      (i owner : ℕ) (kind : Kind) (state : State) (t : Sockets Kind Addr)
      → t.next + length t.slots ≤ u32_mod
      → get_elem? t.slots i ≡ some none
      → (s : Socket Kind Addr) × (u : Sockets Kind Addr) × (insert owner kind state t ≡ (some s, u))
        × (t.next ≤ s.id)
        × (s.id < t.next + length t.slots)
  unfolding insert
  insert-some i owner kind state t small free =
      let (j, lt, there) = covers t.next i (length t.slots) (lt_of_get_elem? t.slots i none free) in
      insert_loop-some (length t.slots) j owner kind state t lt small
        (ap is_taken (ap (get_elem? t.slots) there ∙ free))

  insert_loop-none :
      (rounds owner : ℕ) (kind : Kind) (state : State) (t : Sockets Kind Addr)
      → ((i : ℕ) → is_taken (get_elem? t.slots i) ≡ true)
      → ((insert_loop rounds owner kind state t).0 ≡ none)
        × ((insert_loop rounds owner kind state t).1.slots ≡ t.slots)
  unfolding insert_loop
  insert_loop-none zero owner kind state t full = (refl, refl)
  insert_loop-none (suc rounds) owner kind state t full =
      rw (full (t.next % length t.slots))
        (insert_loop-none rounds owner kind state (record t { next = next_id t.next }) full)

  -- When every slot is taken, `insert` gives nothing and leaves the slots.
  pub insert-none :
      (owner : ℕ) (kind : Kind) (state : State) (t : Sockets Kind Addr)
      → ((i : ℕ) → is_taken (get_elem? t.slots i) ≡ true)
      → ((insert owner kind state t).0 ≡ none) × ((insert owner kind state t).1.slots ≡ t.slots)
  unfolding insert
  insert-none owner kind state t full = insert_loop-none (length t.slots) owner kind state t full
