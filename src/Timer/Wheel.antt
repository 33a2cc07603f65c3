-- ===== src/Timer/Wheel.antt =====
-- crates/rskynet-timer/src/wheel.rs. The vectors `near` and `levels` have fixed lengths, 256 and
-- 10 times 64, and every index into them is masked to that length, so each is a function of its
-- index; `locations`, a hash map, is a function of the key. A method returns the new wheel.
pub mod Ticks
pub mod Place
pub mod Inv
pub mod Moves
pub mod Scatter
pub mod Contents
pub mod Shift
pub mod Cascade
pub mod Fire
pub mod Rounds
pub mod Remove
pub mod Removed
pub mod Cancel
mod Examples
use rskynet.Base.{
  ℕ, zero, suc, ◌+◌, ◌-◌, ◌*◌, Bool, true, false, ◌&&◌, ◌||◌, List, [], ◌∷◌, ◌++◌, Option, none,
  some, ltb, leb, ◌==◌, if◌then◌else◌, length, get_elem?, set, wrapping_add, shr, low_bits,
  fill_low,
}

abbrev pub time_near_shift : ℕ
time_near_shift = 8

abbrev pub time_level_shift : ℕ
time_level_shift = 6

abbrev pub time_levels : ℕ
time_levels = 10

pub record TimerKey : Type 0 where
  pub handle : ℕ
  pub session : ℕ

pub record TimerEvent : Type 0 where
  pub handle : ℕ
  pub session : ℕ
  pub expire : ℕ

abbrev pub key : TimerEvent → TimerKey
key e = record { handle = e.handle; session = e.session }

pub data Location : Type 0 where
  near_at : ℕ → ℕ → Location
  level_at : ℕ → ℕ → ℕ → Location

pub record Wheel : Type 0 where
  pub time : ℕ
  pub near : ℕ → List TimerEvent
  pub levels : ℕ → ℕ → List TimerEvent
  pub locations : TimerKey → Option Location

-- The derived equality of keys.
abbrev pub same_key : TimerKey → TimerKey → Bool
same_key a b = a.handle == b.handle && a.session == b.session

-- Writing one entry of each table.
abbrev pub set_near : Wheel → ℕ → List TimerEvent → Wheel
set_near w slot bucket = record w { near = λ s. if s == slot then bucket else w.near s }

abbrev pub set_level : Wheel → ℕ → ℕ → List TimerEvent → Wheel
set_level w level slot bucket = record w {
  levels = λ l s. if l == level && s == slot then bucket else w.levels l s;
}

abbrev pub set_location : Wheel → TimerKey → Option Location → Wheel
set_location w k location = record w {
  locations = λ j. if same_key j k then location else w.locations j;
}

unfoldable pub new : Wheel
new = record { time = 0; near = λ s. []; levels = λ l s. []; locations = λ k. none }

-- Whether the round of level `level + 1` that holds `current` holds `expire` too; the shift of a
-- 64-bit word by 64 or more is not made.
unfoldable pub same_round : ℕ → ℕ → ℕ → Bool
same_round level expire current =
    let upper_shift = time_near_shift + (level + 1) * time_level_shift in
    leb 64 upper_shift || shr expire upper_shift == shr current upper_shift

-- The loop of `add` that finds the level: `rounds` levels are left from `level` on.
unfoldable pub select_level : ℕ → ℕ → ℕ → ℕ → ℕ
select_level zero level expire current = time_levels - 1
select_level (suc rounds) level expire current =
    let rest = select_level rounds (level + 1) expire current in
    if same_round level expire current then level else rest

-- An event that is due already goes to the current slot.
abbrev pub clamp : ℕ → TimerEvent → TimerEvent
clamp time e = if leb e.expire time then record e { expire = time } else e

unfoldable pub push_near : Wheel → TimerEvent → Wheel
push_near w e =
    let slot = low_bits e.expire time_near_shift in
    let index = length (w.near slot) in
    set_location (set_near w slot (w.near slot ++ e ∷ [])) (key e) (some (near_at slot index))

unfoldable pub push_level : Wheel → ℕ → TimerEvent → Wheel
push_level w selected e =
    let shift = time_near_shift + selected * time_level_shift in
    let slot = low_bits (shr e.expire shift) time_level_shift in
    let index = length (w.levels selected slot) in
    set_location (set_level w selected slot (w.levels selected slot ++ e ∷ [])) (key e)
      (some (level_at selected slot index))

-- The rest of `add`, after the event is clamped.
unfoldable pub place : Wheel → TimerEvent → Wheel
unfolding push_near push_level select_level same_round
place w e =
    if fill_low e.expire time_near_shift == fill_low w.time time_near_shift
    then push_near w e
    else push_level w (select_level time_levels 0 e.expire w.time) e

unfoldable pub add : Wheel → TimerEvent → Wheel
unfolding place
add w event = place w (clamp w.time event)

-- `Vec::pop` on a list that ends in the last element.
abbrev pub drop_last : List TimerEvent → List TimerEvent
drop_last [] = []
drop_last (x ∷ []) = []
drop_last (x ∷ y ∷ xs) = x ∷ drop_last (y ∷ xs)

-- `Vec::swap_remove`: the last element takes the place of the removed one. (It panics out of range.)
unfoldable pub swap_remove : List TimerEvent → ℕ → List TimerEvent
swap_remove bucket index = elim (get_elem? bucket (length bucket - 1)) [
  | none ↦ bucket
  | some last ↦ drop_last (set bucket index last)
]

-- The event that `swap_remove` moved, if any, gets its location anew.
abbrev pub relocate : Wheel → Option TimerEvent → Location → Wheel
relocate w none location = w
relocate w (some e) location = set_location w (key e) (some location)

unfoldable pub cancel : Wheel → TimerKey → Wheel
unfolding swap_remove
cancel w k = elim (w.locations k) [
  | none ↦ w
  | some (near_at slot index) ↦
      let bucket = swap_remove (w.near slot) index in
      relocate (set_near (set_location w k none) slot bucket) (get_elem? bucket index)
        (near_at slot index)
  | some (level_at level slot index) ↦
      let bucket = swap_remove (w.levels level slot) index in
      relocate (set_level (set_location w k none) level slot bucket) (get_elem? bucket index)
        (level_at level slot index)
]

-- The loop of `move_list`.
unfoldable pub re_add : Wheel → List TimerEvent → Wheel
re_add w [] = w
re_add w (e ∷ es) = re_add (add (set_location w (key e) none) e) es

unfoldable pub move_list : Wheel → ℕ → ℕ → Wheel
unfolding re_add
move_list w level slot = re_add (set_level w level slot []) (w.levels level slot)

-- The loop of `shift` that finds the level to scatter.
unfoldable pub cascade : ℕ → ℕ → ℕ → Wheel → Wheel
unfolding move_list
cascade zero level shifted w = w
cascade (suc rounds) level shifted w =
    let slot = low_bits shifted time_level_shift in
    let rest = cascade rounds (level + 1) (shr shifted time_level_shift) w in
    if slot == 0 then rest else move_list w level slot

-- The rest of `shift`, after the clock has gone on.
unfoldable pub settle : Wheel → Wheel
unfolding move_list cascade
settle w =
    if w.time == 0
    then move_list w (time_levels - 1) 0
    else if low_bits w.time time_near_shift == 0
    then cascade time_levels 0 (shr w.time time_near_shift) w
    else w

unfoldable pub shift : Wheel → Wheel
unfolding settle
shift w = settle (record w { time = wrapping_add w.time 1 })

-- The loop of `execute` over the events taken.
abbrev pub forget : Wheel → List TimerEvent → Wheel
forget w [] = w
forget w (e ∷ es) = forget (set_location w (key e) none) es

-- The events that are appended to `out`, and the wheel without them.
unfoldable pub execute : Wheel → List TimerEvent × Wheel
execute w =
    let slot = low_bits w.time time_near_shift in
    (w.near slot, forget (set_near w slot []) (w.near slot))

-- One round of the loop that drives the wheel (`WheelTimer::update`): fire, go on, fire again.
unfoldable pub tick : Wheel → List TimerEvent × Wheel
tick w =
    let (before, w1) = execute w in let (after, w2) = execute (shift w1) in (before ++ after, w2)

-- The loop, with what all its rounds append to `out`.
unfoldable pub ticks : ℕ → Wheel → List TimerEvent × Wheel
ticks zero w = ([], w)
ticks (suc n) w = let (fired, w1) = tick w in let (later, w2) = ticks n w1 in (fired ++ later, w2)
