-- ===== src/Core/Tasks/Wake/Reached.antt =====
-- What holds of every reachable state of the wakes.
use rskynet.Base.{
  ℕ, ◌≤◌, ◌<◌, ◌≡◌, refl, sym, ap, subst, arith, true, List, [], ◌∷◌, Option, none, some,
  some_ne_none, u64_mod,
}
use rskynet.Core.Tasks.{TaskId, TaskSlot, TaskSet, take, drain_tasks}
use rskynet.Core.Tasks.Slots.{take-some, take-none}
use rskynet.Core.Tasks.Wake.{
  Waking, Step, spawns, wakes, pushes, skips, polls, finishes, pends, drains, Reachable, begins,
  then_steps,
}
use rskynet.Core.Tasks.Wake.Sound.{
  entries_of, IsLive, IsSound, start-IsSound, pushes-IsSound, wakes-IsSound, spawns-IsSound,
}
use rskynet.Core.Tasks.Wake.Polls.{
  Present, slots-IsSound, remove-IsSound, restore-IsSound, not-IsLive, skips-IsSound, polls-IsSound,
}

module _ {F : Type 0} where
  Step-IsSound :
      (vacant : List (ℕ × TaskSlot F) → ℕ) (s t : Waking F)
      → Step vacant s t
      → t.spawned < u64_mod
      → IsSound s
      → IsSound t
  unfolding drain_tasks
  Step-IsSound vacant s _ (spawns _ f request source) k v =
      spawns-IsSound vacant s f request source k v
  Step-IsSound vacant s _ (wakes _ g z l) k v = wakes-IsSound s g z l v
  Step-IsSound vacant s _ (pushes _ task before after e) k v =
      pushes-IsSound s task before after e v
  Step-IsSound vacant s _ (skips _ task rest tasks free front e) k v =
      let (same, useless) = take-none task s.tasks tasks e in
      subst (λ u. IsSound (record s { tasks = u; ready = rest })) (sym same)
        (skips-IsSound s task rest free front useless v)
  Step-IsSound vacant s _ (polls _ task rest f source tasks free front e) k v =
      let (slot, mine, there, same) = take-some task s.tasks tasks f source e in
      subst (λ u. IsSound (record s { tasks = u; ready = rest; polling = some task })) (sym same)
        (polls-IsSound s task rest slot free front mine v)
  Step-IsSound vacant s _ (finishes _ task e) k v = remove-IsSound s task e v
  Step-IsSound vacant s _ (pends _ task f e) k v = restore-IsSound s task f e v
  Step-IsSound vacant s _ (drains _ e) k v =
      slots-IsSound s [] 0 s.polling (λ i slot at. absurd (some_ne_none (sym at)))
        (unfold Present in λ i slot at empty. absurd (some_ne_none (sym at))) v

  spawned-grows :
      (vacant : List (ℕ × TaskSlot F) → ℕ) (s t : Waking F)
      → Step vacant s t
      → s.spawned ≤ t.spawned
  spawned-grows vacant s _ (spawns _ f request source) = omega arith
  spawned-grows vacant s _ (wakes _ g z l) = omega arith
  spawned-grows vacant s _ (pushes _ task before after e) = omega arith
  spawned-grows vacant s _ (skips _ task rest tasks free front e) = omega arith
  spawned-grows vacant s _ (polls _ task rest f source tasks free front e) = omega arith
  spawned-grows vacant s _ (finishes _ task e) = omega arith
  spawned-grows vacant s _ (pends _ task f e) = omega arith
  spawned-grows vacant s _ (drains _ e) = omega arith

  Reachable-IsSound :
      (vacant : List (ℕ × TaskSlot F) → ℕ) (s : Waking F)
      → Reachable vacant s
      → s.spawned < u64_mod
      → IsSound s
  Reachable-IsSound vacant _ begins k = start-IsSound
  Reachable-IsSound vacant _ (then_steps s t r e) k =
      Step-IsSound vacant s t e k
        (Reachable-IsSound vacant s r (omega (arith, spawned-grows vacant s t e)))

  -- However wakes and polls interleave, as long as fewer than 2^64 tasks were spawned: every task
  -- has one entry at most in the ready queue and in the hands that are about to push it there; and
  -- a live task whose signal is set, hence every live task that was just woken, has exactly one, so
  -- that it will be polled.
  pub one_entry :
      (vacant : List (ℕ × TaskSlot F) → ℕ) (s : Waking F) (g : ℕ)
      → Reachable vacant s
      → s.spawned < u64_mod
      → (entries_of s g ≤ 1) × (IsLive s g → s.tasks.signals g ≡ true → entries_of s g ≡ 1)
  one_entry vacant s g r k =
      let v : IsSound s = Reachable-IsSound vacant s r k in (v.one g, λ live on. v.kept g live on)

  -- Of a reachable state, as long as fewer than 2^64 tasks were inserted: outside of a poll, if the
  -- task at the front of the ready queue stands in a slot, `take` gives its future.
  pub woken_is_polled :
      (vacant : List (ℕ × TaskSlot F) → ℕ) (s : Waking F) (task : TaskId) (rest : List TaskId)
      → Reachable vacant s
      → s.spawned < u64_mod
      → s.polling ≡ none
      → s.ready ≡ task ∷ rest
      → IsLive s task.generation
      → (f : F) × (source : ℕ) × ((take task s.tasks).0 ≡ some (f, source))
  woken_is_polled vacant s task rest r k free front live = go (take task s.tasks) refl
    where
      go :
          (o : Option (F × ℕ) × TaskSet F)
          → take task s.tasks ≡ o
          → (f : F) × (source : ℕ) × ((take task s.tasks).0 ≡ some (f, source))
      go (some (f, source), u) e = (f, source, ap (λ (x : Option (F × ℕ) × TaskSet F). x.0) e)
      go (none, u) e =
          let v : IsSound s = Reachable-IsSound vacant s r k in
          let (same, useless) = take-none task s.tasks u e in
          absurd (not-IsLive s task rest free front useless v live)
