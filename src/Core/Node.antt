-- ===== src/Core/Node.antt =====
-- crates/rskynet-core/src/server.rs: when a node stops. A service is its place in the list of all that
-- were launched. What runs under the lock of the node's life is one function; other threads come in
-- between, and in `destroy` also between the mark on the service and the rest. The number of services
-- fits in memory, so the count does not overflow.
pub mod Quits
mod Examples
use rskynet.Base.{
  ℕ, ◌+◌, ◌-◌, ◌≡◌, Bool, true, false, ◌&&◌, List, [], ◌∷◌, ◌++◌, Option, none, some, ◌==◌,
  if◌then◌else◌, get_elem?, set,
}

-- A service before `destroy` marks it, after that, and when `destroy` has returned.
pub data Stage : Type 0 where
  alive : Stage
  destroying : Stage
  gone : Stage

pub record NodeService : Type 0 where
  pub reserved : Bool
  pub stage : Stage

pub record Node : Type 0 where
  pub total : ℕ
  pub booted : Bool
  pub quit : Bool
  pub services : List NodeService

unfoldable pub new : Node
new = record { total = 0; booted = false; quit = false; services = [] }

-- Whether this call is the one that makes the node stop, so that all services are interrupted.
unfoldable pub set_quit_locked : Node → Bool × Node
set_quit_locked n = if n.quit then (false, n) else (true, record n { quit = true })

-- `none` is the error of a node that has stopped.
unfoldable pub launch : Bool → Node → Option Node
launch reserved n =
    if n.quit
    then none
    else some (record n {
      total = if reserved then n.total else n.total + 1;
      services = n.services ++ record { reserved = reserved; stage = alive } ∷ [];
    })

unfoldable pub mark_booted : Node → Bool × Node
unfolding set_quit_locked
mark_booted n =
    let booted = record n { booted = true } in
    if booted.total == 0 then set_quit_locked booted else (false, booted)

-- `destroy` marks the service first, and returns at once if it is marked.
unfoldable pub swap_destroyed : ℕ → NodeService → Node → Bool × Node
swap_destroyed i s n = elim s.stage [
  | alive ↦ (false, record n { services = set n.services i (record s { stage = destroying }) })
  | destroying ↦ (true, n)
  | gone ↦ (true, n)
]

-- The rest of `destroy`.
unfoldable pub settle_total : Bool → Node → Bool × Node
unfolding set_quit_locked
settle_total reserved n =
    let less = record n { total = n.total - 1 } in
    if reserved
    then (false, n)
    else if n.total == 1 && n.booted
    then set_quit_locked less
    else (false, less)

-- A step of some thread.
pub data Step : Node → Node → Type 0 where
  launches : (n m : Node) (reserved : Bool) → launch reserved n ≡ some m → Step n m
  boots : (n : Node) → Step n (mark_booted n).1
  quits : (n : Node) → Step n (set_quit_locked n).1
  marks :
      (n : Node) (i : ℕ) (s : NodeService)
      → get_elem? n.services i ≡ some s
      → Step n (swap_destroyed i s n).1
  settles :
      (n : Node) (i : ℕ) (s : NodeService)
      → get_elem? n.services i ≡ some s
      → s.stage ≡ destroying
      → Step n (
          let m = (settle_total s.reserved n).1 in
          record m { services = set n.services i (record s { stage = gone }) })

pub data Reachable : Node → Type 0 where
  begins : Reachable new
  then_steps : (n m : Node) → Reachable n → Step n m → Reachable m
