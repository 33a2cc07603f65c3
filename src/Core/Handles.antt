-- ===== src/Core/Handles.antt =====
-- crates/rskynet-core/src/handle.rs: the table of a node's services and the table of their names.
-- The slot array is a function of the index with its length `size`; the length is 4 at first and
-- only doubles, so `handle & (len - 1)` is `handle % size`. Writers hold one lock for the whole of
-- their method, so a method is one step; readers see the tables of a moment. A service's context
-- is a value of any type `Body` beside its handle. The names are an association list; `snapshot`,
-- which groups them for display, is left out.
pub mod Valid
pub mod Rehash
pub mod Grow
pub mod Register
pub mod Names
mod Examples
use Prim.Native.String.{String}
use text.Mathlib.Text.{◌==◌ as str_eq}
use rskynet.Base.{
  ℕ, zero, suc, ◌+◌, ◌-◌, ◌*◌, ◌%◌, Bool, true, false, List, [], ◌∷◌, ◌++◌, Option, none, some, ltb,
  leb, ◌==◌, if◌then◌else◌, u64_max,
}

pub record Context (Body : Type 0) : Type 0 where
  pub handle : ℕ
  pub body : Body

pub record HandleStorage (Body : Type 0) : Type 0 where
  pub slots : ℕ → Option (Context Body)
  pub size : ℕ
  pub names : List (String × ℕ)
  pub next : ℕ

abbrev pub default_slot_size : ℕ
default_slot_size = 4

-- `u32::MAX`, which bounds the length of the slot array.
abbrev pub max_slots : ℕ
max_slots = 4294967295

module _ {Body : Type 0} where
  unfoldable pub new : HandleStorage Body
  new = record { slots = λ i. none; size = default_slot_size; names = []; next = 1 }

  abbrev pub store :
      (ℕ → Option (Context Body)) → ℕ → Option (Context Body) → ℕ → Option (Context Body)
  store slots i c j = if j == i then c else slots j

  -- `filter(|ctx| ctx.handle == handle)`
  abbrev pub if_handle : ℕ → Option (Context Body) → Option (Context Body)
  if_handle h none = none
  if_handle h (some c) = if c.handle == h then some c else none

  unfoldable pub grab : HandleStorage Body → ℕ → Option (Context Body)
  grab s h = if_handle h (s.slots (h % s.size))

  -- The services in the first `n` slots, by the index of the slot.
  unfoldable pub contexts_to : ℕ → (ℕ → Option (Context Body)) → List (Context Body)
  contexts_to zero slots = []
  contexts_to (suc n) slots = elim (slots n) [
    | none ↦ contexts_to n slots
    | some c ↦ contexts_to n slots ++ c ∷ []
  ]

  unfoldable pub contexts : HandleStorage Body → List (Context Body)
  contexts s = contexts_to s.size s.slots

  -- The loop of `grow` over the services.
  unfoldable pub rehash :
      ℕ → List (Context Body) → (ℕ → Option (Context Body)) → ℕ → Option (Context Body)
  rehash size [] slots = slots
  rehash size (c ∷ cs) slots = rehash size cs (store slots (c.handle % size) (some c))

  -- `none` is the panic at the limit of the array.
  unfoldable pub grow : HandleStorage Body → Option (HandleStorage Body)
  grow s =
      let new_size = s.size * 2 in
      if leb new_size max_slots
      then some (record s { slots = rehash new_size (contexts s) (λ i. none); size = new_size })
      else none

-- What the probing loop of `register_with` finds.
pub data Probe : Type 0 where
  vacant : ℕ → Probe
  all_taken : Probe
  exhausted : Probe

-- What `register_with` gives: a service and the new tables, a panic, or no end of the fuel given.
pub data Registered (Body : Type 0) : Type 0 where
  registered : Context Body → HandleStorage Body → Registered Body
  panicked : Registered Body
  out_of_fuel : Registered Body

-- The names of other services.
unfoldable pub names_without : ℕ → List (String × ℕ) → List (String × ℕ)
names_without h [] = []
names_without h ((n, owner) ∷ ns) =
    if owner == h then names_without h ns else (n, owner) ∷ names_without h ns

abbrev pub lookup_name : String → List (String × ℕ) → Option ℕ
lookup_name k [] = none
lookup_name k ((n, owner) ∷ ns) = if str_eq n k then some owner else lookup_name k ns

module _ {Body : Type 0} where
  -- `rounds` slots are left to try, from that of `handle` on. The successor of the handle is
  -- computed (`checked_add`) before a vacant slot is taken, too.
  unfoldable pub probe : ℕ → ℕ → ℕ → (ℕ → Option (Context Body)) → Probe
  probe zero size handle slots = all_taken
  probe (suc rounds) size handle slots = elim (slots (handle % size)) [
    | none ↦ if ltb handle u64_max then vacant handle else exhausted
    | some _ ↦ elim (ltb handle u64_max) [
      | true ↦ probe rounds size (handle + 1) slots
      | false ↦ exhausted
    ]
  ]

  abbrev pub occupy : HandleStorage Body → Context Body → ℕ → HandleStorage Body
  occupy s c h = record s { slots = store s.slots (h % s.size) (some c); next = h + 1 }

  -- The closure `make` builds the context for the handle that it is given.
  unfoldable pub register_loop : ℕ → (ℕ → Context Body) → HandleStorage Body → Registered Body
  unfolding probe grow
  register_loop zero make s = out_of_fuel
  register_loop (suc fuel) make s = elim (probe s.size s.size s.next s.slots) [
    | vacant h ↦ registered (make h) (occupy s (make h) h)
    | exhausted ↦ panicked
    | all_taken ↦ elim (grow s) [ none ↦ panicked | some t ↦ register_loop fuel make t ]
  ]

  -- After one growth there is a vacant slot, so two rounds are enough.
  unfoldable pub register_with : (ℕ → Context Body) → HandleStorage Body → Registered Body
  unfolding register_loop
  register_with make s = register_loop 2 make s

  -- The service that was taken out, if it was there.
  unfoldable pub retire : HandleStorage Body → ℕ → Option (Context Body) × HandleStorage Body
  unfolding grab names_without
  retire s h = elim (grab s h) [
    | none ↦ (none, s)
    | some c ↦ (
      some c,
      record s { slots = store s.slots (h % s.size) none; names = names_without h s.names },
    )
  ]

  unfoldable pub find_name : HandleStorage Body → String → Option ℕ
  find_name s k = lookup_name k s.names

  unfoldable pub register_name : HandleStorage Body → ℕ → String → Bool × HandleStorage Body
  unfolding grab find_name
  register_name s h k = elim (grab s h) [
    | none ↦ (false, s)
    | some _ ↦ elim (find_name s k) [
      | some _ ↦ (false, s)
      | none ↦ (true, record s { names = (k, h) ∷ s.names })
    ]
  ]
