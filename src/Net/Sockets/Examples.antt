-- ===== src/Net/Sockets/Examples.antt =====
-- Tests of the sockets, and the theorems on a small table.
use rskynet.Base.{
  ℕ, ◌≤◌, ◌<◌, ◌≡◌, refl, arith, true, [], ◌∷◌, Option, none, some, ◌==◌, if◌then◌else◌,
}
use rskynet.Net.Buffer.{is_empty, empty_queue}
use rskynet.Net.Sockets.{
  connected, listen, Socket, Sockets, Interest, readable, Registry, new_socket, new, insert_loop,
  insert, get, by_token, remove, desired, apply,
}
use rskynet.Net.Sockets.Table.{IsValid, get-insert, get-remove}
use rskynet.Net.Sockets.Valid.{new-IsValid, insert-IsValid, by_token-get}
use rskynet.Net.Sockets.Fresh.{insert-some}
use rskynet.Net.Sockets.Poll.{IsRegistry, apply-held}

-- Sockets of the operating system and addresses are numbers here.
abbrev fresh_socket : Socket ℕ ℕ
fresh_socket = new_socket 1 1 5 9 connected 64

abbrev two_slots : Sockets ℕ ℕ
two_slots = record { slots = none ∷ none ∷ []; next = 1; floor = 64 }

abbrev one_socket : Sockets ℕ ℕ
one_socket = record { slots = none ∷ some fresh_socket ∷ []; next = 2; floor = 64 }

insert_uses_the_slot_of_the_id : insert 5 9 connected two_slots ≡ (some fresh_socket, one_socket)
unfolding insert insert_loop
insert_uses_the_slot_of_the_id = refl

-- The ids wrap from 2^32 - 1 to 1: both are ids of slot 1, and slot 0 is passed over.
abbrev at_wrap : Sockets ℕ ℕ
at_wrap = record one_socket { next = 4294967295 }

scan_at_wrap_misses_a_free_slot : (insert 5 9 connected at_wrap).0 ≡ none
unfolding insert insert_loop
scan_at_wrap_misses_a_free_slot = refl

late_command_finds_nobody : get 3 one_socket ≡ none
unfolding get new_socket
late_command_finds_nobody = refl

two_slots-IsValid : IsValid two_slots
unfolding new
two_slots-IsValid = new-IsValid 2 64

one_socket-IsValid : IsValid one_socket
unfolding insert insert_loop
one_socket-IsValid =
    insert-IsValid 5 9 connected two_slots one_socket fresh_socket two_slots-IsValid refl

get-insert_example :
    (get 1 two_slots ≡ none)
    × ((j : ℕ) → get j one_socket ≡ (if 1 == j then some fresh_socket else get j two_slots))
unfolding insert insert_loop new_socket
get-insert_example =
    get-insert 5 9 connected two_slots one_socket fresh_socket (omega arith, omega arith) refl

get-remove_example :
    ((remove 1 one_socket).0 ≡ get 1 one_socket)
    × ((j : ℕ) → get j (remove 1 one_socket).1 ≡ (if 1 == j then none else get j one_socket))
get-remove_example = get-remove 1 one_socket

by_token-get_example :
    ((k : ℕ)
      → by_token k one_socket ≡ some fresh_socket
      → (fresh_socket.slot ≡ k) × (get fresh_socket.id one_socket ≡ some fresh_socket))
    × ((id : ℕ)
        → get id one_socket ≡ some fresh_socket
        → (fresh_socket.id ≡ id) × (by_token fresh_socket.slot one_socket ≡ some fresh_socket))
by_token-get_example = by_token-get one_socket fresh_socket one_socket-IsValid

insert-some_example :
    (s : Socket ℕ ℕ) × (u : Sockets ℕ ℕ) × (insert 6 7 listen one_socket ≡ (some s, u))
    × (2 ≤ s.id)
    × (s.id < 4)
insert-some_example = insert-some 0 6 7 listen one_socket (omega arith) refl

-- A registry that never fails, as a map from tokens.
abbrev set_interest : ℕ → Option Interest → (ℕ → Option Interest) → ℕ → Option Interest
set_interest token want r k = if k == token then want else r k

abbrev table_registry : Registry (ℕ → Option Interest)
table_registry = record {
  register = λ token want r. (true, set_interest token (some want) r);
  reregister = λ token want r. (true, set_interest token (some want) r);
  deregister = λ token r. (true, set_interest token none r);
}

set_interest_self :
    (token : ℕ) (want : Option Interest) (r : ℕ → Option Interest)
    → set_interest token want r token ≡ want
set_interest_self token want r = let self : (token == token) ≡ true = ground arith in rw self refl

table_registry-IsRegistry : IsRegistry table_registry (λ r. r)
table_registry-IsRegistry = record {
  registers = λ token want r e ok. set_interest_self token (some want) r;
  reregisters = λ token want have r e ok. set_interest_self token (some want) r;
  deregisters = λ token have r e ok. set_interest_self token none r;
}

abbrev polled_socket : Socket ℕ ℕ
polled_socket = record fresh_socket { interest = some readable }

apply-held_example :
    (polled_socket.interest ≡ desired polled_socket)
    × (set_interest 1 (some readable) (λ k. none) polled_socket.slot ≡ polled_socket.interest)
    × (apply table_registry polled_socket (set_interest 1 (some readable) (λ k. none))
        ≡ (true, polled_socket, set_interest 1 (some readable) (λ k. none)))
unfolding new_socket apply desired is_empty empty_queue
apply-held_example =
    apply-held table_registry (λ r. r) fresh_socket polled_socket (λ k. none)
      (set_interest 1 (some readable) (λ k. none)) table_registry-IsRegistry refl refl
