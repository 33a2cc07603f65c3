-- ===== src/Core/Tasks/Wake/Sound.antt =====
-- At most one entry of a task waits to be polled, and a woken task has one.
use native.Mathlib.Decide.{ℕ_discrete}
use rskynet.Base.{
  ℕ, suc, ◌+◌, ◌≤◌, ◌<◌, ◌≡◌, ◌≢◌, refl, sym, ap, subst, ◌∙◌, arith, true, false, true_ne_false,
  List, [], ◌∷◌, ◌++◌, Option, none, some, some_inj, some_ne_none, Bool-cases, ◌==◌, if◌then◌else◌,
  u64_mod, wrapping_add, ltb, inl, inr, ◌⊎◌,
}
use rskynet.Base.Maps.{lookup, insert, lookup-insert}
use rskynet.Core.Tasks.{TaskId, TaskSlot, new, insert_task, signal}
use rskynet.Core.Tasks.Wake.{Waking, start, waker}

-- The entries of a generation in a list.
abbrev pub entries : ℕ → List TaskId → ℕ
entries g [] = 0
entries g (x ∷ xs) = (if x.generation == g then 1 else 0) + entries g xs

pub entries-append :
    (g : ℕ) (xs ys : List TaskId) → entries g (xs ++ ys) ≡ entries g xs + entries g ys
entries-append g [] ys = omega arith
entries-append g (x ∷ xs) ys = omega (arith, entries-append g xs ys)

-- Every entry of a list is the waker of its generation.
abbrev pub AllIssued : (ℕ → ℕ) → List TaskId → Type 0
AllIssued issued [] = 0 ≤ 0
AllIssued issued (x ∷ xs) = (x.index ≡ issued x.generation) × AllIssued issued xs

AllIssued-append :
    (issued : ℕ → ℕ) (xs ys : List TaskId)
    → AllIssued issued xs
    → AllIssued issued ys
    → AllIssued issued (xs ++ ys)
AllIssued-append issued [] ys a b = b
AllIssued-append issued (x ∷ xs) ys (a, al) b = (a, AllIssued-append issued xs ys al b)

AllIssued-split :
    (issued : ℕ → ℕ) (xs : List TaskId) (x : TaskId) (ys : List TaskId)
    → AllIssued issued (xs ++ x ∷ ys)
    → (x.index ≡ issued x.generation) × AllIssued issued (xs ++ ys)
AllIssued-split issued [] x ys (a, al) = (a, al)
AllIssued-split issued (z ∷ xs) x ys (a, al) =
    let (b, bs) = AllIssued-split issued xs x ys al in (b, (a, bs))

AllIssued-update :
    (issued : ℕ → ℕ) (new_gen index : ℕ) (xs : List TaskId)
    → entries new_gen xs ≡ 0
    → AllIssued issued xs
    → AllIssued (λ g. if g == new_gen then index else issued g) xs
AllIssued-update issued new_gen index [] none_there al = al
AllIssued-update issued new_gen index (x ∷ xs) none_there (a, al) =
    let other : (x.generation == new_gen) ≡ false = ground arith in
    (rw other a, AllIssued-update issued new_gen index xs (omega arith) al)

module _ {F : Type 0} where
  abbrev pub entries_of : Waking F → ℕ → ℕ
  entries_of s g = entries g s.ready + entries g s.pushing

  -- The task with a generation stands in some slot.
  abbrev pub IsLive : Waking F → ℕ → Type 0
  IsLive s g =
      (i : ℕ) × (slot : TaskSlot F) × (lookup i s.tasks.slots ≡ some slot) × (slot.generation ≡ g)

  pub record IsSound (s : Waking F) : Type 0 where
    pub counted : s.tasks.next_generation ≡ s.spawned
    pub one : (g : ℕ) → entries_of s g ≤ 1
    pub signalled : (g : ℕ) → 0 < entries_of s g → s.tasks.signals g ≡ true
    pub kept : (g : ℕ) → IsLive s g → s.tasks.signals g ≡ true → entries_of s g ≡ 1
    pub old : (g : ℕ) → 0 < entries_of s g → (0 < g) × (g ≤ s.spawned)
    pub homed :
        (i : ℕ) (slot : TaskSlot F)
        → lookup i s.tasks.slots ≡ some slot
        → (s.issued slot.generation ≡ i) × (0 < slot.generation) × (slot.generation ≤ s.spawned)
    pub present :
        (i : ℕ) (slot : TaskSlot F)
        → lookup i s.tasks.slots ≡ some slot
        → slot.future ≡ none
        → (task : TaskId) × (s.polling ≡ some task)
          × (task.index ≡ i)
          × (task.generation ≡ slot.generation)
    pub ready_ids : AllIssued s.issued s.ready
    pub pushing_ids : AllIssued s.issued s.pushing

  pub start-IsSound : IsSound start
  unfolding new
  start-IsSound = record {
    counted = refl;
    one = λ g. omega arith;
    signalled = λ g k. absurd (omega arith);
    kept = λ g live e. let (i, slot, at, same) = live in absurd (some_ne_none (sym at));
    old = λ g k. absurd (omega arith);
    homed = λ i slot e. absurd (some_ne_none (sym e));
    present = λ i slot e f. absurd (some_ne_none (sym e));
    ready_ids = omega arith;
    pushing_ids = omega arith;
  }

  -- An entry that moves from a pushing thread into the ready queue.
  pub pushes-IsSound :
      (s : Waking F) (task : TaskId) (before after : List TaskId)
      → s.pushing ≡ before ++ task ∷ after
      → IsSound s
      → IsSound (record s { pushing = before ++ after; ready = s.ready ++ task ∷ [] })
  pushes-IsSound s task before after e v =
      let ids =
        AllIssued-split s.issued before task after (subst (AllIssued s.issued) e v.pushing_ids) in
      record {
        counted = v.counted;
        one = λ g. omega (arith, v.one g, same g);
        signalled = λ g k. v.signalled g (omega (arith, same g));
        kept = λ g live on. omega (arith, v.kept g live on, same g);
        old = λ g k. v.old g (omega (arith, same g));
        homed = v.homed;
        present = v.present;
        ready_ids = AllIssued-append s.issued s.ready (task ∷ []) v.ready_ids (ids.0, omega arith);
        pushing_ids = ids.1;
      }
    where
      same :
          (g : ℕ)
          → entries g (s.ready ++ task ∷ []) + entries g (before ++ after)
            ≡ entries g s.ready + entries g s.pushing
      same g = omega (
        arith,
        entries-append g s.ready (task ∷ []),
        entries-append g before after,
        entries-append g before (task ∷ after),
        ap (entries g) e,
      )

  pub wakes-IsSound :
      (s : Waking F) (g : ℕ)
      → 0 < g
      → g ≤ s.spawned
      → IsSound s
      → let (fires, tasks) = signal (waker s g) s.tasks in
        IsSound
          (record s { tasks = tasks; pushing = if fires then waker s g ∷ s.pushing else s.pushing })
  unfolding signal
  wakes-IsSound s g z k v = elim (Bool-cases (s.tasks.signals g)) [
    | inl on ↦
        rw (signal, on)
          (record {
            counted = v.counted;
            one = v.one;
            signalled = v.signalled;
            kept = v.kept;
            old = v.old;
            homed = v.homed;
            present = v.present;
            ready_ids = v.ready_ids;
            pushing_ids = v.pushing_ids;
          })
    | inr off ↦
        let fresh : entries_of s g ≡ 0 = idle off in
        rw (signal, off)
          (record {
            counted = v.counted;
            one = λ h. elim (ℕ_discrete h g) [
              | yes here ↦ omega (arith, fresh, more h, moved h here)
              | no other ↦ omega (arith, v.one h, less h other)
            ];
            signalled = λ h l. elim (ℕ_discrete h g) [
              | yes here ↦ ground arith
              | no other ↦
                  let old_one : s.tasks.signals h ≡ true =
                    v.signalled h (omega (arith, less h other)) in
                  ground arith
            ];
            kept = λ h live on. elim (ℕ_discrete h g) [
              | yes here ↦ omega (arith, fresh, more h, moved h here, exact h here)
              | no other ↦
                  let old_on : s.tasks.signals h ≡ true = ground arith in
                  omega (arith, v.kept h live old_on, less h other)
            ];
            old = λ h l. elim (ℕ_discrete h g) [
              | yes here ↦ (omega arith, omega arith)
              | no other ↦ v.old h (omega (arith, less h other))
            ];
            homed = v.homed;
            present = v.present;
            ready_ids = v.ready_ids;
            pushing_ids = (refl, v.pushing_ids);
          })
  ]
    where
      idle : s.tasks.signals g ≡ false → entries_of s g ≡ 0
      idle off = elim (Bool-cases (ltb 0 (entries_of s g))) [
        | inl some_there ↦ absurd (true_ne_false (sym (v.signalled g (ground arith)) ∙ off))
        | inr none_there ↦ ground arith
      ]

      moved : (h : ℕ) → h ≡ g → entries_of s h ≡ entries_of s g
      moved h e = ap (entries_of s) e

      more : (h : ℕ) → entries h s.ready + entries h (waker s g ∷ s.pushing) ≤ entries_of s h + 1
      more h = ground arith

      exact :
          (h : ℕ)
          → h ≡ g
          → entries h s.ready + entries h (waker s g ∷ s.pushing) ≡ entries_of s h + 1
      exact h e = ground arith

      less :
          (h : ℕ) → h ≢ g → entries h s.ready + entries h (waker s g ∷ s.pushing) ≡ entries_of s h
      less h ne = ground arith

  pub spawns-IsSound :
      (vacant : List (ℕ × TaskSlot F) → ℕ) (s : Waking F) (f : F) (request : Option (ℕ × ℕ))
      (source : ℕ)
      → suc s.spawned < u64_mod
      → IsSound s
      → let (task, tasks) = insert_task vacant f request source s.tasks in
        IsSound (record s {
          tasks = tasks;
          pushing = task ∷ s.pushing;
          spawned = suc s.spawned;
          issued = λ g. if g == task.generation then task.index else s.issued g;
        })
  unfolding insert_task
  spawns-IsSound vacant s f request source small v =
      let up : wrapping_add s.tasks.next_generation 1 ≡ suc s.spawned = omega (arith, v.counted) in
      rw up (record {
        counted = refl;
        one = λ g. elim (ℕ_discrete g (suc s.spawned)) [
          | yes here ↦ omega (arith, fresh g here, more g)
          | no other ↦ omega (arith, v.one g, less g other)
        ];
        signalled = λ g k. elim (ℕ_discrete g (suc s.spawned)) [
          | yes here ↦ ground arith
          | no other ↦
              let on : s.tasks.signals g ≡ true = v.signalled g (omega (arith, less g other)) in
              ground arith
        ];
        kept = λ g live on. elim (ℕ_discrete g (suc s.spawned)) [
          | yes here ↦ omega (arith, fresh g here, exact g here)
          | no other ↦
              let was : s.tasks.signals g ≡ true = ground arith in
              omega (arith, v.kept g (before g other live) was, less g other)
        ];
        old = λ g k. elim (ℕ_discrete g (suc s.spawned)) [
          | yes here ↦ (omega arith, omega arith)
          | no other ↦ let (low, high) = v.old g (omega (arith, less g other)) in (low, omega arith)
        ];
        homed = λ i slot e. elim (which i slot e) [
          | inl (here, same) ↦
              let g : slot.generation ≡ suc s.spawned =
                sym (ap (λ (x : TaskSlot F). x.generation) same) in
              (ground arith, omega arith, omega arith)
          | inr was ↦ let (a, b, c) = v.homed i slot was in (ground arith, b, omega arith)
        ];
        present = λ i slot e none_there. elim (which i slot e) [
          | inl (here, same) ↦
              absurd (some_ne_none (ap (λ (x : TaskSlot F). x.future) same ∙ none_there))
          | inr was ↦ v.present i slot was none_there
        ];
        ready_ids =
            AllIssued-update s.issued (suc s.spawned) index s.ready
              (omega (arith, fresh (suc s.spawned) refl)) v.ready_ids;
        pushing_ids = (
          ground arith,
          AllIssued-update s.issued (suc s.spawned) index s.pushing
              (omega (arith, fresh (suc s.spawned) refl)) v.pushing_ids,
        );
      })
    where
      index : ℕ
      index = vacant s.tasks.slots

      task : TaskId
      task = record { index = index; generation = suc s.spawned }

      slot_new : TaskSlot F
      slot_new = record {
        future = some f;
        generation = suc s.spawned;
        request = request;
        source = source;
      }

      fresh : (g : ℕ) → g ≡ suc s.spawned → entries_of s g ≡ 0
      fresh g e = elim (Bool-cases (ltb 0 (entries_of s g))) [
        | inl some_there ↦ absurd (omega (arith, (v.old g (ground arith)).1))
        | inr none_there ↦ ground arith
      ]

      more : (g : ℕ) → entries g s.ready + entries g (task ∷ s.pushing) ≤ entries_of s g + 1
      more g = ground arith

      exact :
          (g : ℕ)
          → g ≡ suc s.spawned
          → entries g s.ready + entries g (task ∷ s.pushing) ≡ entries_of s g + 1
      exact g e = ground arith

      less :
          (g : ℕ)
          → g ≢ suc s.spawned
          → entries g s.ready + entries g (task ∷ s.pushing) ≡ entries_of s g
      less g ne = ground arith

      which :
          (i : ℕ) (slot : TaskSlot F)
          → lookup i (insert index slot_new s.tasks.slots) ≡ some slot
          → ((index ≡ i) × (slot_new ≡ slot)) ⊎ (lookup i s.tasks.slots ≡ some slot)
      which i slot e = elim (Bool-cases (index == i)) [
        | inl here ↦
            let at = rw here at (sym (lookup-insert index i slot_new s.tasks.slots) ∙ e) in
            inl (ground arith, some_inj at)
        | inr other ↦ inr (rw other at (sym (lookup-insert index i slot_new s.tasks.slots) ∙ e))
      ]

      before :
          (g : ℕ)
          → g ≢ suc s.spawned
          → (i : ℕ) × (slot : TaskSlot F) × (lookup i (insert index slot_new s.tasks.slots)
              ≡ some slot)
            × (slot.generation ≡ g)
          → IsLive s g
      before g ne (i, slot, e, same) = elim (which i slot e) [
        | inl (here, is_new) ↦
            absurd (ne (sym same ∙ ap (λ (x : TaskSlot F). x.generation) (sym is_new)))
        | inr was ↦ (i, slot, was, same)
      ]
