-- ===== src/Net/Sockets.antt =====
-- crates/rskynet-net/src/socket.rs: the sockets of the network service, a table of slots, and what
-- each asks of the poll. The sockets of the operating system are values of any type `Kind`, socket
-- addresses of any type `Addr`, and the poll's registry is that of the mio library: a parameter with
-- its laws. A socket id is a `u32`. The configuration keeps the capacity above 0.
pub mod Table
pub mod Valid
pub mod Fresh
pub mod Poll
mod Examples
use rskynet.Base.{
  ℕ, zero, suc, ◌+◌, ◌%◌, ◌^◌, ◌≡◌, Bool, true, false, List, [], ◌∷◌, Option, none, some, ◌==◌,
  if◌then◌else◌, get_elem?, set, length, replicate,
}
use rskynet.Net.Buffer.{WriteQueue, ReadSizer, empty_queue, is_empty, new_sizer}

pub data State : Type 0 where
  pre_listen : State
  listen : State
  connecting : State
  pre_accept : State
  connected : State
  half_close_read : State
  half_close_write : State

unfoldable pub writable : State → Bool
writable connected = true
writable half_close_read = true
writable _ = false

pub data Interest : Type 0 where
  readable : Interest
  writing : Interest
  both : Interest

-- `want != have`
abbrev pub same_interest : Interest → Interest → Bool
same_interest readable readable = true
same_interest writing writing = true
same_interest both both = true
same_interest _ _ = false

pub record Pending : Type 0 where
  pub source : ℕ
  pub session : ℕ

unfoldable pub is_silent : Pending → Bool
is_silent p = p.session == 0

pub record Stat : Type 0 where
  pub accept_count : ℕ
  pub read_bytes : ℕ
  pub write_bytes : ℕ
  pub last_read_at_ms : Option ℕ
  pub last_write_at_ms : Option ℕ

abbrev pub no_stat : Stat
no_stat = record {
  accept_count = 0;
  read_bytes = 0;
  write_bytes = 0;
  last_read_at_ms = none;
  last_write_at_ms = none;
}

pub record Socket (Kind Addr : Type 0) : Type 0 where
  pub id : ℕ
  pub slot : ℕ
  pub owner : ℕ
  pub kind : Kind
  pub state : State
  pub paused : Bool
  pub interest : Option Interest
  pub wb : WriteQueue Addr
  pub read : ReadSizer
  pub udp_peer : Option Addr
  pub pending : Option Pending
  pub send_waiters : List Pending
  pub connect_fallbacks : List Addr
  pub connect_deadline_ms : Option ℕ
  pub stat : Stat

pub record Sockets (Kind Addr : Type 0) : Type 0 where
  pub slots : List (Option (Socket Kind Addr))
  pub next : ℕ
  pub floor : ℕ

abbrev pub u32_mod : ℕ
u32_mod = 2 ^ 32

-- The id after `next`: 0 is skipped.
abbrev pub next_id : ℕ → ℕ
next_id next = let n = (next + 1) % u32_mod in if n == 0 then 1 else n

module _ {Kind Addr : Type 0} where
  unfoldable pub new_socket : ℕ → ℕ → ℕ → Kind → State → ℕ → Socket Kind Addr
  new_socket id slot owner kind state floor = record {
    id = id;
    slot = slot;
    owner = owner;
    kind = kind;
    state = state;
    paused = false;
    interest = none;
    wb = empty_queue;
    read = new_sizer floor;
    udp_peer = none;
    pending = none;
    send_waiters = [];
    connect_fallbacks = [];
    connect_deadline_ms = none;
    stat = no_stat;
  }

  unfoldable pub new : ℕ → ℕ → Sockets Kind Addr
  new capacity floor = record { slots = replicate capacity none; next = 1; floor = floor }

  -- Whether a slot is taken; there is none past the end.
  abbrev pub is_taken : Option (Option (Socket Kind Addr)) → Bool
  is_taken (some none) = false
  is_taken (some (some s)) = true
  is_taken none = true

  -- The socket put into the slot of its id.
  abbrev pub put_at :
      ℕ → ℕ → Kind → State → Sockets Kind Addr → Socket Kind Addr × Sockets Kind Addr
  put_at id owner kind state t =
      let slot = id % length t.slots in
      let socket = new_socket id slot owner kind state t.floor in
      (socket, record t { slots = set t.slots slot (some socket) })

  -- The rounds of the loop in `insert`, as many as its first argument.
  unfoldable pub insert_loop :
      ℕ → ℕ → Kind → State → Sockets Kind Addr → Option (Socket Kind Addr) × Sockets Kind Addr
  insert_loop zero owner kind state t = (none, t)
  insert_loop (suc rounds) owner kind state t =
      let id = t.next in
      let moved = record t { next = next_id t.next } in
      let rest = insert_loop rounds owner kind state moved in
      let (socket, done) = put_at id owner kind state moved in
      if is_taken (get_elem? t.slots (id % length t.slots)) then rest else (some socket, done)

  unfoldable pub insert :
      ℕ → Kind → State → Sockets Kind Addr → Option (Socket Kind Addr) × Sockets Kind Addr
  unfolding insert_loop
  insert owner kind state t = insert_loop (length t.slots) owner kind state t

  -- The socket of a slot, if it has the id.
  abbrev pub if_id : ℕ → Option (Option (Socket Kind Addr)) → Option (Socket Kind Addr)
  if_id id (some (some s)) = if s.id == id then some s else none
  if_id id (some none) = none
  if_id id none = none

  -- `get`, and `get_mut`
  unfoldable pub get : ℕ → Sockets Kind Addr → Option (Socket Kind Addr)
  get id t = if_id id (get_elem? t.slots (id % length t.slots))

  unfoldable pub by_token : ℕ → Sockets Kind Addr → Option (Socket Kind Addr)
  by_token token t = elim (get_elem? t.slots token) [ none ↦ none | some o ↦ o ]

  unfoldable pub remove : ℕ → Sockets Kind Addr → Option (Socket Kind Addr) × Sockets Kind Addr
  unfolding get
  remove id t = elim (get id t) [
    | none ↦ (none, t)
    | some s ↦ (some s, record t { slots = set t.slots (id % length t.slots) none })
  ]

  unfoldable pub desired : Socket Kind Addr → Option Interest
  desired s = elim s.state [
    | pre_listen ↦ none
    | pre_accept ↦ none
    | listen ↦ some readable
    | connecting ↦ some writing
    | connected ↦ if is_empty s.wb then some readable else some both
    | half_close_read ↦ some writing
    | half_close_write ↦ some writing
  ]

-- The registry of a poll: what each call does to it and whether it succeeds.
pub record Registry (R : Type 0) : Type 0 where
  pub register : ℕ → Interest → R → Bool × R
  pub reregister : ℕ → Interest → R → Bool × R
  pub deregister : ℕ → R → Bool × R

-- The call that takes the poll from one interest to another.
abbrev pub settle : {R : Type 0} → Registry R → ℕ → Option Interest → Option Interest → R → Bool × R
settle registry token (some want) none r = registry.register token want r
settle registry token (some want) (some have) r =
    if same_interest want have then (true, r) else registry.reregister token want r
settle registry token none (some have) r = registry.deregister token r
settle registry token none none r = (true, r)

module _ {Kind Addr R : Type 0} (registry : Registry R) where
  -- Whether it succeeds; after an error of the registry the socket stays as it was.
  unfoldable pub apply : Socket Kind Addr → R → Bool × Socket Kind Addr × R
  unfolding desired
  apply s r =
      let (ok, after) = settle registry s.slot (desired s) s.interest r in
      if ok then (true, record s { interest = desired s }, after) else (false, s, after)

  unfoldable pub detach : Socket Kind Addr → R → Socket Kind Addr × R
  detach s r = elim s.interest [
    | none ↦ (s, r)
    | some have ↦ (record s { interest = none }, (registry.deregister s.slot r).1)
  ]
