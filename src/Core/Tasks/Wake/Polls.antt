-- ===== src/Core/Tasks/Wake/Polls.antt =====
-- The worker's steps keep the invariant of the wakes.
use native.Mathlib.Decide.{ℕ_discrete}
use rskynet.Base.{
  ℕ, ◌+◌, ◌≤◌, ◌≡◌, ◌≢◌, refl, sym, ap, subst, ◌∙◌, arith, true, false, true_ne_false, List, ◌∷◌,
  Option, none, some, some_inj, some_ne_none, ◌==◌, if◌then◌else◌, inl, inr,
}
use rskynet.Base.Maps.{lookup, insert, erase, lookup-insert_cases, lookup-erase_cases}
use rskynet.Core.Tasks.{TaskId, TaskSlot, slot_of, restore, remove}
use rskynet.Core.Tasks.Slots.{slot_of-some, lookup-slot_of, after_take}
use rskynet.Core.Tasks.Wake.{Waking}
use rskynet.Core.Tasks.Wake.Sound.{entries, AllIssued, IsLive, IsSound}

module _ {F : Type 0} where
  -- The slots change, but each is of a generation that stood there before.
  unfoldable pub Present : List (ℕ × TaskSlot F) → Option TaskId → Type 0
  Present slots polling =
      (i : ℕ) (slot : TaskSlot F)
      → lookup i slots ≡ some slot
      → slot.future ≡ none
      → (task : TaskId) × (polling ≡ some task)
        × (task.index ≡ i)
        × (task.generation ≡ slot.generation)

  pub slots-IsSound :
      (s : Waking F) (slots : List (ℕ × TaskSlot F)) (count : ℕ) (polling : Option TaskId)
      → ((i : ℕ) (slot : TaskSlot F)
          → lookup i slots ≡ some slot
          → (was : TaskSlot F) × (lookup i s.tasks.slots ≡ some was)
            × (was.generation ≡ slot.generation))
      → Present slots polling
      → IsSound s
      → IsSound
          (record s { tasks = record s.tasks { slots = slots; count = count }; polling = polling })
  unfolding Present
  slots-IsSound s slots count polling origin present v = record {
    counted = v.counted;
    one = v.one;
    signalled = v.signalled;
    kept = λ g (i, slot, at, same) on.
        let (was, there, gen) = origin i slot at in v.kept g (i, was, there, gen ∙ same) on;
    old = v.old;
    homed = λ i slot at.
        let (was, there, gen) = origin i slot at in
        let (a, b, c) = v.homed i was there in
        (ap s.issued (sym gen) ∙ a, omega arith, omega arith);
    present = present;
    ready_ids = v.ready_ids;
    pushing_ids = v.pushing_ids;
  }

  -- While nothing else is polled, only the slot of the polled task is empty.
  polled-slot :
      (s : Waking F) (task : TaskId) (i : ℕ) (slot : TaskSlot F)
      → s.polling ≡ some task
      → IsSound s
      → lookup i s.tasks.slots ≡ some slot
      → slot.future ≡ none
      → (slot_of task s.tasks ≡ some slot) × (task.index ≡ i)
  polled-slot s task i slot e v at empty =
      let (x, p, a, b) = v.present i slot at empty in
      let same : x ≡ task = some_inj (sym p ∙ e) in
      let home : task.index ≡ i = ap (λ (y : TaskId). y.index) (sym same) ∙ a in
      (
        lookup-slot_of task s.tasks slot (ap (λ j. lookup j s.tasks.slots) home ∙ at)
            (sym b ∙ ap (λ (y : TaskId). y.generation) same),
        home,
      )

  pub remove-IsSound :
      (s : Waking F) (task : TaskId)
      → s.polling ≡ some task
      → IsSound s
      → IsSound (record s { tasks = remove task s.tasks; polling = none })
  unfolding remove Present
  remove-IsSound s task e v = go (slot_of task s.tasks) refl
    where
      go :
          (o : Option (TaskSlot F))
          → slot_of task s.tasks ≡ o
          → IsSound (record s { tasks = remove task s.tasks; polling = none })
      go none q =
          rw (remove, q)
            (slots-IsSound s s.tasks.slots s.tasks.count none (λ i slot at. (slot, at, refl))
              (λ i slot at empty.
                absurd (some_ne_none (sym (polled-slot s task i slot e v at empty).0 ∙ q)))
              v)
      go (some slot) q =
          rw (remove, q)
            (slots-IsSound s (erase task.index s.tasks.slots) _ none
              (λ i x at. (x, (lookup-erase_cases task.index i x s.tasks.slots at).1, refl))
              (λ i x at empty.
                let (off, was) = lookup-erase_cases task.index i x s.tasks.slots at in
                absurd (off (polled-slot s task i x e v was empty).1))
              v)

  pub restore-IsSound :
      (s : Waking F) (task : TaskId) (f : F)
      → s.polling ≡ some task
      → IsSound s
      → IsSound (record s { tasks = restore task f s.tasks; polling = none })
  unfolding restore Present
  restore-IsSound s task f e v = go (slot_of task s.tasks) refl
    where
      go :
          (o : Option (TaskSlot F))
          → slot_of task s.tasks ≡ o
          → IsSound (record s { tasks = restore task f s.tasks; polling = none })
      go none q =
          rw (restore, q)
            (slots-IsSound s s.tasks.slots s.tasks.count none (λ i slot at. (slot, at, refl))
              (λ i slot at empty.
                absurd (some_ne_none (sym (polled-slot s task i slot e v at empty).0 ∙ q)))
              v)
      go (some slot) q =
          rw (restore, q)
            (slots-IsSound s (insert task.index (record slot { future = some f }) s.tasks.slots)
              s.tasks.count none
              (λ i x at.
                elim (lookup-insert_cases task.index i (record slot { future = some f }) x
                  s.tasks.slots at) [
                    | inl (here, is_new) ↦ (
                      slot,
                      ap (λ j. lookup j s.tasks.slots) (sym here)
                          ∙ (slot_of-some task s.tasks slot q).0,
                      ap (λ (y : TaskSlot F). y.generation) is_new,
                    )
                    | inr (off, was) ↦ (x, was, refl)
                  ])
              (λ i x at empty.
                elim (lookup-insert_cases task.index i (record slot { future = some f }) x
                  s.tasks.slots at) [
                    | inl (here, is_new) ↦
                        absurd (some_ne_none (ap (λ (y : TaskSlot F). y.future) is_new ∙ empty))
                    | inr (off, was) ↦ absurd (off (polled-slot s task i x e v was empty).1)
                  ])
              v)

  -- A task that is no task's own slot any more, or has no future there, is not live outside a poll.
  pub not-IsLive :
      (s : Waking F) (task : TaskId) (rest : List TaskId)
      → s.polling ≡ none
      → s.ready ≡ task ∷ rest
      → ((slot : TaskSlot F) → slot_of task s.tasks ≡ some slot → slot.future ≡ none)
      → IsSound s
      → ¬ IsLive s task.generation
  not-IsLive s task rest free front useless v live =
      let (i, slot, at, gen) = live in
      let ids : (task.index ≡ s.issued task.generation) × AllIssued s.issued rest =
        subst (AllIssued s.issued) front v.ready_ids in
      let home : task.index ≡ i = ids.0 ∙ ap s.issued (sym gen) ∙ (v.homed i slot at).0 in
      let mine : slot_of task s.tasks ≡ some slot =
        lookup-slot_of task s.tasks slot (ap (λ j. lookup j s.tasks.slots) home ∙ at) gen in
      let (x, p, a, b) = v.present i slot at (useless slot mine) in some_ne_none (sym p ∙ free)

  -- The front entry is popped and its task is not to be polled: it is no task's any more.
  pub skips-IsSound :
      (s : Waking F) (task : TaskId) (rest : List TaskId)
      → s.polling ≡ none
      → s.ready ≡ task ∷ rest
      → ((slot : TaskSlot F) → slot_of task s.tasks ≡ some slot → slot.future ≡ none)
      → IsSound s
      → IsSound (record s { ready = rest })
  skips-IsSound s task rest free front useless v = record {
    counted = v.counted;
    one = λ g. omega (arith, v.one g, fewer g);
    signalled = λ g k. v.signalled g (omega (arith, fewer g));
    kept = λ g live on. elim (ℕ_discrete task.generation g) [
      | yes same ↦
          absurd (not-IsLive s task rest free front useless v (subst (IsLive s) (sym same) live))
      | no other ↦ omega (arith, v.kept g live on, others g other)
    ];
    old = λ g k. v.old g (omega (arith, fewer g));
    homed = v.homed;
    present = v.present;
    ready_ids = ids.1;
    pushing_ids = v.pushing_ids;
  }
    where
      ids : (task.index ≡ s.issued task.generation) × AllIssued s.issued rest
      ids = subst (AllIssued s.issued) front v.ready_ids

      popped :
          (g : ℕ) → entries g s.ready ≡ (if task.generation == g then 1 else 0) + entries g rest
      popped g = ap (entries g) front

      fewer : (g : ℕ) → entries g rest ≤ entries g s.ready
      fewer g = omega (arith, popped g)

      others : (g : ℕ) → task.generation ≢ g → entries g rest ≡ entries g s.ready
      others g ne =
          let off : ◌≡◌ {A = ℕ} (if task.generation == g then 1 else 0) 0 = ground arith in
          omega (arith, popped g, off)

  -- The front entry is popped and its task is taken out to be polled.
  pub polls-IsSound :
      (s : Waking F) (task : TaskId) (rest : List TaskId) (slot : TaskSlot F)
      → s.polling ≡ none
      → s.ready ≡ task ∷ rest
      → slot_of task s.tasks ≡ some slot
      → IsSound s
      → IsSound
          (record s { tasks = after_take task slot s.tasks; ready = rest; polling = some task })
  polls-IsSound s task rest slot free front mine v = record {
    counted = v.counted;
    one = λ g. omega (arith, v.one g, fewer g);
    signalled = λ g k. elim (ℕ_discrete g task.generation) [
      | yes same ↦ absurd (omega (arith, v.one g, gone g same))
      | no other ↦
          let was : s.tasks.signals g ≡ true = v.signalled g (omega (arith, others g other)) in
          ground arith
    ];
    kept = λ g live on. elim (ℕ_discrete g task.generation) [
      | yes same ↦
          let off : (if g == task.generation then false else s.tasks.signals g) ≡ false =
            ground arith in
          absurd (true_ne_false (sym on ∙ off))
      | no other ↦
          let was : s.tasks.signals g ≡ true = ground arith in
          omega (arith, v.kept g (before g live) was, others g other)
    ];
    old = λ g k. v.old g (omega (arith, fewer g));
    homed = λ i x at.
        let (y, there, gen) = origin i x at in
        let (a, b, c) = v.homed i y there in (ap s.issued (sym gen) ∙ a, omega arith, omega arith);
    present = λ i x at empty. elim (lookup-insert_cases task.index i emptied x s.tasks.slots at) [
      | inl (here, is_new) ↦ (
        task,
        refl,
        here,
        sym (slot_of-some task s.tasks slot mine).1 ∙ ap (λ (y : TaskSlot F). y.generation) is_new,
      )
      | inr (off, was) ↦
          let (y, p, a, b) = v.present i x was empty in absurd (some_ne_none (sym p ∙ free))
    ];
    ready_ids = (subst (AllIssued s.issued) front v.ready_ids).1;
    pushing_ids = v.pushing_ids;
  }
    where
      emptied : TaskSlot F
      emptied = record slot { future = none }

      popped :
          (g : ℕ) → entries g s.ready ≡ (if task.generation == g then 1 else 0) + entries g rest
      popped g = ap (entries g) front

      fewer : (g : ℕ) → entries g rest ≤ entries g s.ready
      fewer g = omega (arith, popped g)

      others : (g : ℕ) → g ≢ task.generation → entries g rest ≡ entries g s.ready
      others g ne =
          let off : ◌≡◌ {A = ℕ} (if task.generation == g then 1 else 0) 0 = ground arith in
          omega (arith, popped g, off)

      gone : (g : ℕ) → g ≡ task.generation → entries g s.ready ≡ 1 + entries g rest
      gone g same =
          let on : ◌≡◌ {A = ℕ} (if task.generation == g then 1 else 0) 1 = ground arith in
          omega (arith, popped g, on)

      origin :
          (i : ℕ) (x : TaskSlot F)
          → lookup i (insert task.index emptied s.tasks.slots) ≡ some x
          → (was : TaskSlot F) × (lookup i s.tasks.slots ≡ some was)
            × (was.generation ≡ x.generation)
      origin i x at = elim (lookup-insert_cases task.index i emptied x s.tasks.slots at) [
        | inl (here, is_new) ↦ (
          slot,
          ap (λ j. lookup j s.tasks.slots) (sym here) ∙ (slot_of-some task s.tasks slot mine).0,
          ap (λ (y : TaskSlot F). y.generation) is_new,
        )
        | inr (off, was) ↦ (x, was, refl)
      ]

      before :
          (g : ℕ)
          → (i : ℕ) × (x : TaskSlot F) × (lookup i (insert task.index emptied s.tasks.slots)
              ≡ some x)
            × (x.generation ≡ g)
          → IsLive s g
      before g (i, x, at, same) =
          let (was, there, gen) = origin i x at in (i, was, there, gen ∙ same)
