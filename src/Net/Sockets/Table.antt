-- ===== src/Net/Sockets/Table.antt =====
-- The table of sockets as a map from ids.
use native.Mathlib.Decide.{ℕ_discrete}
use rskynet.Base.{
  ℕ, zero, suc, ◌%◌, ◌<◌, ◌≡◌, ◌≢◌, refl, sym, ap, subst, ◌∙◌, arith, false, true_ne_false, List,
  Option, none, some, some_inj, some_ne_none, Bool-cases, ◌==◌, if◌then◌else◌, get_elem?, set,
  length, length-set, get_elem?-set_self, get_elem?-set_ne, lt_of_get_elem?, inl, inr,
}
use rskynet.Net.Sockets.{
  State, Socket, Sockets, u32_mod, next_id, new_socket, is_taken, insert_loop, insert, if_id, get,
  remove,
}

next_id_range_lem : (n : ℕ) → (0 < next_id n) × (next_id n < u32_mod)
next_id_range_lem n = ground arith

module _ {Kind Addr : Type 0} where
  -- Every socket stands in the slot of its id, and knows the slot; ids are 32-bit and not 0.
  pub record IsValid (t : Sockets Kind Addr) : Type 0 where
    pub placed :
        (i : ℕ) (s : Socket Kind Addr)
        → get_elem? t.slots i ≡ some (some s)
        → (s.slot ≡ i) × (s.id % length t.slots ≡ i) × (0 < s.id) × (s.id < u32_mod)
    pub next_id_range : (0 < t.next) × (t.next < u32_mod)

  -- What `insert` leaves when it gives a socket.
  pub record Inserted (owner : ℕ) (kind : Kind) (state : State) (t u : Sockets Kind Addr)
      (s : Socket Kind Addr) : Type 0 where
    pub next : ℕ
    pub id_range : (0 < s.id) × (s.id < u32_mod)
    pub next_range : (0 < next) × (next < u32_mod)
    pub vacant : is_taken (get_elem? t.slots (s.id % length t.slots)) ≡ false
    pub socket : s ≡ new_socket s.id (s.id % length t.slots) owner kind state t.floor
    pub table : u ≡ record t { slots = set t.slots (s.id % length t.slots) (some s); next = next }

  insert_loop-Inserted :
      (rounds owner : ℕ) (kind : Kind) (state : State) (t u : Sockets Kind Addr)
      (s : Socket Kind Addr)
      → (0 < t.next) × (t.next < u32_mod)
      → insert_loop rounds owner kind state t ≡ (some s, u)
      → Inserted owner kind state t u s
  unfolding insert_loop new_socket
  insert_loop-Inserted zero owner kind state t u s range e =
      absurd
        (some_ne_none (sym (ap (λ (x : Option (Socket Kind Addr) × Sockets Kind Addr). x.0) e)))
  insert_loop-Inserted (suc rounds) owner kind state t u s range e =
      elim (Bool-cases (is_taken (get_elem? t.slots (t.next % length t.slots)))) [
        | inl full ↦
            let moved : Sockets Kind Addr = record t { next = next_id t.next } in
            let v : Inserted owner kind state moved u s =
              insert_loop-Inserted rounds owner kind state moved u s (next_id_range_lem t.next)
                (rw full at e) in
            record {
              next = v.next;
              id_range = v.id_range;
              next_range = v.next_range;
              vacant = v.vacant;
              socket = v.socket;
              table = v.table;
            }
        | inr free ↦
            let hit = rw free at e in
            let mine : new_socket t.next (t.next % length t.slots) owner kind state t.floor ≡ s =
              some_inj (ap (λ (x : Option (Socket Kind Addr) × Sockets Kind Addr). x.0) hit) in
            let same : t.next ≡ s.id = ap (λ (x : Socket Kind Addr). x.id) mine in
            record {
              next = next_id t.next;
              id_range = subst (λ n. (0 < n) × (n < u32_mod)) same range;
              next_range = next_id_range_lem t.next;
              vacant =
                  subst (λ n. is_taken (get_elem? t.slots (n % length t.slots)) ≡ false) same free;
              socket =
                  sym mine
                  ∙ ap (λ n. new_socket n (n % length t.slots) owner kind state t.floor) same;
              table =
                  sym (ap (λ (x : Option (Socket Kind Addr) × Sockets Kind Addr). x.1) hit)
                  ∙ ap
                      (λ (x : Socket Kind Addr). record t {
                        slots = set t.slots (t.next % length t.slots) (some x);
                        next = next_id t.next;
                      })
                      mine
                  ∙ ap
                      (λ n. record t {
                        slots = set t.slots (n % length t.slots) (some s);
                        next = next_id t.next;
                      })
                      same;
            }
      ]

  pub insert-Inserted :
      (owner : ℕ) (kind : Kind) (state : State) (t u : Sockets Kind Addr) (s : Socket Kind Addr)
      → (0 < t.next) × (t.next < u32_mod)
      → insert owner kind state t ≡ (some s, u)
      → Inserted owner kind state t u s
  unfolding insert
  insert-Inserted owner kind state t u s range e =
      insert_loop-Inserted (length t.slots) owner kind state t u s range e

  vacant-get :
      (j : ℕ) (o : Option (Option (Socket Kind Addr))) → is_taken o ≡ false → if_id j o ≡ none
  vacant-get j none e = refl
  vacant-get j (some none) e = refl
  vacant-get j (some (some s)) e = absurd (true_ne_false e)

  pub vacant-lt :
      (xs : List (Option (Socket Kind Addr))) (k : ℕ)
      → is_taken (get_elem? xs k) ≡ false
      → k < length xs
  vacant-lt xs k free = go (get_elem? xs k) refl
    where
      go : (o : Option (Option (Socket Kind Addr))) → get_elem? xs k ≡ o → k < length xs
      go none e = absurd (true_ne_false (ap is_taken (sym e) ∙ free))
      go (some x) e = lt_of_get_elem? xs k x e

  -- A slot of another id does not hold the socket.
  other_slot :
      (t : Sockets Kind Addr) (k : ℕ) (o : Option (Socket Kind Addr)) (next j : ℕ)
      → k ≢ j % length t.slots
      → get j (record t { slots = set t.slots k o; next = next }) ≡ get j t
  unfolding get
  other_slot t k o next j ne =
      ap (λ n. if_id j (get_elem? (set t.slots k o) (j % n))) (length-set t.slots k o)
      ∙ ap (if_id j) (get_elem?-set_ne t.slots k (j % length t.slots) o ne)

  own_slot :
      (t : Sockets Kind Addr) (k : ℕ) (o : Option (Socket Kind Addr)) (next j : ℕ)
      → k ≡ j % length t.slots
      → k < length t.slots
      → get j (record t { slots = set t.slots k o; next = next }) ≡ if_id j (some o)
  unfolding get
  own_slot t k o next j same lt =
      ap (λ n. if_id j (get_elem? (set t.slots k o) (j % n))) (length-set t.slots k o)
      ∙ ap (λ n. if_id j (get_elem? (set t.slots k o) n)) (sym same)
      ∙ ap (if_id j) (get_elem?-set_self t.slots k o lt)

  -- As a map from ids to sockets: a socket that `insert` gives had no entry under its id and has one
  -- now, and no other id is looked up otherwise. The next id is above 0 and fits in 32 bits.
  pub get-insert :
      (owner : ℕ) (kind : Kind) (state : State) (t u : Sockets Kind Addr) (s : Socket Kind Addr)
      → (0 < t.next) × (t.next < u32_mod)
      → insert owner kind state t ≡ (some s, u)
      → (get s.id t ≡ none) × ((j : ℕ) → get j u ≡ (if s.id == j then some s else get j t))
  unfolding get
  get-insert owner kind state t u s range e = (vacant-get s.id _ v.vacant, now)
    where
      v : Inserted owner kind state t u s
      v = insert-Inserted owner kind state t u s range e

      k : ℕ
      k = s.id % length t.slots

      now : (j : ℕ) → get j u ≡ (if s.id == j then some s else get j t)
      now j = ap (get j) v.table ∙ (elim (ℕ_discrete k (j % length t.slots)) [
        | yes same ↦
            own_slot t k (some s) v.next j same (vacant-lt t.slots k v.vacant)
            ∙ ap (λ o. if s.id == j then some s else o)
                (sym (
                  vacant-get j _
                    (subst (λ n. is_taken (get_elem? t.slots n) ≡ false) same v.vacant)))
        | no other ↦
            let off : (s.id == j) ≡ false = elim (Bool-cases (s.id == j)) [
              | inl on ↦ absurd (other (ap (λ n. n % length t.slots) (ground arith)))
              | inr off ↦ off
            ] in
            other_slot t k (some s) v.next j other ∙ (rw off refl)
      ])

  pub if_id-some :
      (id : ℕ) (s : Socket Kind Addr) (o : Option (Option (Socket Kind Addr)))
      → if_id id o ≡ some s
      → (o ≡ some (some s)) × (s.id ≡ id)
  if_id-some id s none e = absurd (some_ne_none (sym e))
  if_id-some id s (some none) e = absurd (some_ne_none (sym e))
  if_id-some id s (some (some x)) e = elim (Bool-cases (x.id == id)) [
    | inl on ↦
        let same : x ≡ s = some_inj (rw on at e) in
        (
          ap (λ y. some (some y)) same,
          ap (λ (y : Socket Kind Addr). y.id) (sym same) ∙ (ground arith),
        )
    | inr off ↦ absurd (some_ne_none (sym (rw off at e)))
  ]

  removed :
      (id : ℕ) (s : Socket Kind Addr) (t : Sockets Kind Addr)
      → get id t ≡ some s
      → (j : ℕ)
      → get j (record t { slots = set t.slots (id % length t.slots) none })
        ≡ (if id == j then none else get j t)
  unfolding get
  removed id s t e j =
      let (there, mine) = if_id-some id s _ e in
      elim (ℕ_discrete (id % length t.slots) (j % length t.slots)) [
        | yes same ↦
            own_slot t (id % length t.slots) none t.next j same
              (lt_of_get_elem? t.slots (id % length t.slots) (some s) there)
            ∙ (elim (Bool-cases (id == j)) [
              | inl on ↦ rw on refl
              | inr off ↦
                  let other : (s.id == j) ≡ false = ground arith in
                  rw off (
                    sym
                      (ap (if_id j) (ap (get_elem? t.slots) (sym same) ∙ there) ∙ (rw other refl)))
            ])
        | no other ↦
            let off : (id == j) ≡ false = elim (Bool-cases (id == j)) [
              | inl on ↦ absurd (other (ap (λ n. n % length t.slots) (ground arith)))
              | inr off ↦ off
            ] in
            other_slot t (id % length t.slots) none t.next j other ∙ (rw off refl)
      ]

  -- As a map from ids to sockets: `remove` gives the entry of the id, which is then gone, and no other
  -- id is looked up otherwise.
  pub get-remove :
      (id : ℕ) (t : Sockets Kind Addr)
      → ((remove id t).0 ≡ get id t)
        × ((j : ℕ) → get j (remove id t).1 ≡ (if id == j then none else get j t))
  unfolding remove
  get-remove id t = go (get id t) refl
    where
      Goal : Type 0
      Goal =
          ((remove id t).0 ≡ get id t)
          × ((j : ℕ) → get j (remove id t).1 ≡ (if id == j then none else get j t))

      go : (o : Option (Socket Kind Addr)) → get id t ≡ o → Goal
      go none e =
          rw (remove, e)
            (
              refl,
              λ j. elim (Bool-cases (id == j)) [
                | inl on ↦ rw on (ap (λ n. get n t) (ground arith) ∙ e)
                | inr off ↦ rw off refl
              ],
            )
      go (some s) e = rw (remove, e) (refl, removed id s t e)
