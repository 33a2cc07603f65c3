-- ===== src/Core/Tasks/Slots.antt =====
-- What a task's slot says of the operations on it.
use rskynet.Base.{
  ℕ, ◌≡◌, refl, sym, ap, ◌∙◌, arith, true, false, Option, none, some, some_inj, some_ne_none,
  Bool-cases, ◌==◌, inl, inr,
}
use rskynet.Base.Maps.{lookup, insert}
use rskynet.Core.Tasks.{TaskId, TaskSlot, TaskSet, slot_of, take, set_signal, if_generation}

module _ {F : Type 0} where
  pub slot_of-some :
      (task : TaskId) (t : TaskSet F) (slot : TaskSlot F)
      → slot_of task t ≡ some slot
      → (lookup task.index t.slots ≡ some slot) × (slot.generation ≡ task.generation)
  unfolding slot_of
  slot_of-some task t slot e = go (lookup task.index t.slots) refl
    where
      go :
          (o : Option (TaskSlot F))
          → lookup task.index t.slots ≡ o
          → (lookup task.index t.slots ≡ some slot) × (slot.generation ≡ task.generation)
      go none q = absurd (some_ne_none (sym e ∙ ap (if_generation task.generation) q))
      go (some x) q = elim (Bool-cases (x.generation == task.generation)) [
        | inl hit ↦
            let kept : if_generation task.generation (some x) ≡ some x = rw hit refl in
            let same : x ≡ slot =
              some_inj (sym kept ∙ sym (ap (if_generation task.generation) q) ∙ e) in
            (q ∙ ap some same, ap (λ (y : TaskSlot F). y.generation) (sym same) ∙ (ground arith))
        | inr miss ↦
            let gone : if_generation task.generation (some x) ≡ none = rw miss refl in
            absurd (some_ne_none (sym e ∙ ap (if_generation task.generation) q ∙ gone))
      ]

  pub lookup-slot_of :
      (task : TaskId) (t : TaskSet F) (slot : TaskSlot F)
      → lookup task.index t.slots ≡ some slot
      → slot.generation ≡ task.generation
      → slot_of task t ≡ some slot
  unfolding slot_of
  lookup-slot_of task t slot e same =
      let hit : (slot.generation == task.generation) ≡ true = ground arith in
      ap (if_generation task.generation) e ∙ (rw hit refl)

  abbrev pub after_take : TaskId → TaskSlot F → TaskSet F → TaskSet F
  after_take task slot t =
      set_signal task.generation false
        (record t { slots = insert task.index (record slot { future = none }) t.slots })

  pub take-some :
      (task : TaskId) (t u : TaskSet F) (f : F) (source : ℕ)
      → take task t ≡ (some (f, source), u)
      → (slot : TaskSlot F) × (slot_of task t ≡ some slot)
        × (slot.future ≡ some f)
        × (u ≡ after_take task slot t)
  unfolding take
  take-some task t u f source e = go (slot_of task t) refl
    where
      Goal : Type 0
      Goal =
          (slot : TaskSlot F) × (slot_of task t ≡ some slot)
          × (slot.future ≡ some f)
          × (u ≡ after_take task slot t)

      first : (Option (F × ℕ) × TaskSet F) → Option (F × ℕ)
      first x = x.0

      second : (Option (F × ℕ) × TaskSet F) → TaskSet F
      second x = x.1

      inner :
          (slot : TaskSlot F) → slot_of task t ≡ some slot → (o : Option F) → slot.future ≡ o → Goal
      inner slot q none r =
          let got : take task t ≡ (none, t) = rw (take, q, r) refl in
          absurd (some_ne_none (ap first (sym e ∙ got)))
      inner slot q (some x) r =
          let got : take task t ≡ (some (x, slot.source), after_take task slot t) =
            rw (take, q, r) refl in
          (
            slot,
            q,
            r ∙ ap some (ap (λ (y : F × ℕ). y.0) (some_inj (ap first (sym got ∙ e)))),
            ap second (sym e ∙ got),
          )

      go : (o : Option (TaskSlot F)) → slot_of task t ≡ o → Goal
      go none q =
          let got : take task t ≡ (none, t) = rw (take, q) refl in
          absurd (some_ne_none (ap first (sym e ∙ got)))
      go (some slot) q = inner slot q slot.future refl

  pub take-none :
      (task : TaskId) (t u : TaskSet F)
      → take task t ≡ (none, u)
      → (u ≡ t) × ((slot : TaskSlot F) → slot_of task t ≡ some slot → slot.future ≡ none)
  unfolding take
  take-none task t u e = go (slot_of task t) refl
    where
      Goal : Type 0
      Goal = (u ≡ t) × ((slot : TaskSlot F) → slot_of task t ≡ some slot → slot.future ≡ none)

      first : (Option (F × ℕ) × TaskSet F) → Option (F × ℕ)
      first x = x.0

      second : (Option (F × ℕ) × TaskSet F) → TaskSet F
      second x = x.1

      inner :
          (slot : TaskSlot F) → slot_of task t ≡ some slot → (o : Option F) → slot.future ≡ o → Goal
      inner slot q none r =
          let got : take task t ≡ (none, t) = rw (take, q, r) refl in
          (
            ap second (sym e ∙ got),
            λ x w. ap (λ (y : TaskSlot F). y.future) (some_inj (sym w ∙ q)) ∙ r,
          )
      inner slot q (some x) r =
          let got : take task t ≡ (
            some (x, slot.source),
            set_signal task.generation false
                (record t { slots = insert task.index (record slot { future = none }) t.slots }),
          ) =
            rw (take, q, r) refl in
          absurd (some_ne_none (ap first (sym got ∙ e)))

      go : (o : Option (TaskSlot F)) → slot_of task t ≡ o → Goal
      go none q =
          let got : take task t ≡ (none, t) = rw (take, q) refl in
          (ap second (sym e ∙ got), λ x w. absurd (some_ne_none (sym w ∙ q)))
      go (some slot) q = inner slot q slot.future refl
