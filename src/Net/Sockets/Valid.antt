-- ===== src/Net/Sockets/Valid.antt =====
-- Every operation keeps the table of sockets valid.
use native.Mathlib.Decide.{ℕ_discrete}
use rskynet.Base.{
  ℕ, ◌%◌, ◌<◌, ◌≡◌, refl, sym, ap, subst, ◌∙◌, arith, true, Option, none, some, some_inj,
  some_ne_none, ◌==◌, get_elem?, set, length, length-set, get_elem?-set_self, get_elem?-set_ne,
  lt_of_get_elem?, get_elem?-replicate, replicate, length-replicate,
}
use rskynet.Net.Sockets.{
  State, Socket, Sockets, u32_mod, new_socket, new, insert, if_id, get, by_token, remove,
}
use rskynet.Net.Sockets.Table.{IsValid, Inserted, insert-Inserted, vacant-lt, if_id-some}

module _ {Kind Addr : Type 0} where
  pub new-IsValid : (capacity floor : ℕ) → IsValid {Kind = Kind} {Addr = Addr} (new capacity floor)
  unfolding new
  new-IsValid capacity floor = record {
    placed = λ i s at.
        let lt : i < length (replicate capacity none) = lt_of_get_elem? _ i (some s) at in
        absurd (
          some_ne_none (
            some_inj (
              sym at
              ∙ get_elem?-replicate capacity i none
                  (subst (λ n. i < n) (length-replicate capacity none) lt))));
    next_id_range = (omega arith, omega arith);
  }

  pub insert-IsValid :
      (owner : ℕ) (kind : Kind) (state : State) (t u : Sockets Kind Addr) (s : Socket Kind Addr)
      → IsValid t
      → insert owner kind state t ≡ (some s, u)
      → IsValid u
  unfolding new_socket
  insert-IsValid owner kind state t u s w e = subst IsValid (sym v.table) (record {
    placed = λ i x at. elim (ℕ_discrete k i) [
      | yes same ↦
          let mine : s ≡ x = some_inj (
            some_inj (
              sym (get_elem?-set_self t.slots k (some s) (vacant-lt t.slots k v.vacant))
              ∙ ap (get_elem? (set t.slots k (some s))) same
              ∙ at)) in
          subst
            (λ y.
              (y.slot ≡ i)
              × (y.id % length (set t.slots k (some s)) ≡ i)
              × (0 < y.id)
              × (y.id < u32_mod))
            mine
            (
              ap (λ (y : Socket Kind Addr). y.slot) v.socket ∙ same,
              ap (λ n. s.id % n) (length-set t.slots k (some s)) ∙ same,
              v.id_range.0,
              v.id_range.1,
            )
      | no other ↦
          let (a, b, c, d) =
            w.placed i x (sym (get_elem?-set_ne t.slots k i (some s) other) ∙ at) in
          (a, ap (λ n. x.id % n) (length-set t.slots k (some s)) ∙ b, c, d)
    ];
    next_id_range = v.next_range;
  })
    where
      v : Inserted owner kind state t u s
      v = insert-Inserted owner kind state t u s w.next_id_range e

      k : ℕ
      k = s.id % length t.slots

  pub remove-IsValid : (id : ℕ) (t : Sockets Kind Addr) → IsValid t → IsValid (remove id t).1
  unfolding remove
  remove-IsValid id t w = go (get id t) refl
    where
      k : ℕ
      k = id % length t.slots

      go : (o : Option (Socket Kind Addr)) → get id t ≡ o → IsValid (remove id t).1
      go none e = rw (remove, e) w
      go (some s) e =
          rw (remove, e)
            (record {
              placed = λ i x at. elim (ℕ_discrete k i) [
                | yes same ↦
                    let lt : i < length t.slots =
                      subst (λ n. i < n) (length-set t.slots k none)
                        (lt_of_get_elem? _ i (some x) at) in
                    absurd (
                      some_ne_none (
                        some_inj (
                          sym at
                          ∙ ap (get_elem? (set t.slots k none)) (sym same)
                          ∙ get_elem?-set_self t.slots k none
                              (subst (λ n. n < length t.slots) (sym same) lt))))
                | no other ↦
                    let (a, b, c, d) =
                      w.placed i x (sym (get_elem?-set_ne t.slots k i none other) ∙ at) in
                    (a, ap (λ n. x.id % n) (length-set t.slots k none) ∙ b, c, d)
              ];
              next_id_range = w.next_id_range;
            })

  -- In a valid table, the token of an event and the id of a socket find the same: the socket of a
  -- slot is the one that its id looks up, and a socket that an id looks up is that of its token.
  pub by_token-get :
      (t : Sockets Kind Addr) (s : Socket Kind Addr)
      → IsValid t
      → ((k : ℕ) → by_token k t ≡ some s → (s.slot ≡ k) × (get s.id t ≡ some s))
        × ((id : ℕ) → get id t ≡ some s → (s.id ≡ id) × (by_token s.slot t ≡ some s))
  unfolding by_token get
  by_token-get t s w = (from_token, from_id)
    where
      from_token : (k : ℕ) → by_token k t ≡ some s → (s.slot ≡ k) × (get s.id t ≡ some s)
      from_token k e = go (get_elem? t.slots k) refl
        where
          go :
              (o : Option (Option (Socket Kind Addr)))
              → get_elem? t.slots k ≡ o
              → (s.slot ≡ k) × (get s.id t ≡ some s)
          go none q = absurd (some_ne_none (sym (rw (by_token, q) at e)))
          go (some o) q =
              let there : get_elem? t.slots k ≡ some (some s) =
                q ∙ ap some (rw (by_token, q) at e) in
              let (a, b, c, d) = w.placed k s there in
              let self : (s.id == s.id) ≡ true = ground arith in
              (a, ap (if_id s.id) (ap (get_elem? t.slots) b ∙ there) ∙ (rw self refl))

      from_id : (id : ℕ) → get id t ≡ some s → (s.id ≡ id) × (by_token s.slot t ≡ some s)
      from_id id e =
          let (there, mine) = if_id-some id s _ e in
          let (a, b, c, d) = w.placed _ s there in
          let here : get_elem? t.slots s.slot ≡ some (some s) = ap (get_elem? t.slots) a ∙ there in
          (mine, rw (by_token, here) refl)
