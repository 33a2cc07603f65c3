-- ===== src/Plugins/Visits.antt =====
-- What a visit of a plugin keeps and adds.
use native.Mathlib.Decide.{ℕ_discrete}
use rskynet.Base.{
  ℕ, ◌≤◌, ◌<◌, ◌≡◌, ◌≢◌, sym, ap, subst, ◌∙◌, List, none, some, some_ne_none, Option-cases, inl,
  inr, length, get_elem?, get_elem?-snoc_end, get_elem?-snoc_old, get_elem?-snoc_cases,
  lt_of_get_elem?, Occurs,
}
use rskynet.Base.Maps.{lookup, insert, lookup-insert_cases}
use rskynet.Plugins.{
  PluginDescriptor, Outcome, refused, fine, Refusal, cycle, Visit, visiting, done, Visits, finish,
}
use rskynet.Plugins.Count.{
  unvisited, Covers, lookup-insert_self, lookup-insert_other, visiting_ne_done, unvisited-le,
}

-- Every dependency is a key, so that each visit finds its descriptor.
abbrev pub AllEnabled : List (ℕ × PluginDescriptor) → Type 0
AllEnabled descriptors =
    (n : ℕ) (d : PluginDescriptor)
    → lookup n descriptors ≡ some d
    → (x : ℕ) → Occurs x d.dependencies
    → (e : PluginDescriptor) × (lookup x descriptors ≡ some e)

-- The dependencies have no cycle: each plugin ranks above those it depends on.
pub record IsRanked (descriptors : List (ℕ × PluginDescriptor)) : Type 0 where
  pub rank : ℕ → ℕ
  pub above :
      (n : ℕ) (d : PluginDescriptor)
      → lookup n descriptors ≡ some d
      → (x : ℕ) → Occurs x d.dependencies
      → rank x < rank n

-- The refusal of a cycle, where there is one.
abbrev pub IsCycle : List (ℕ × PluginDescriptor) → Refusal → Type 0
IsCycle descriptors (cycle n) = ¬ IsRanked descriptors
IsCycle descriptors _ = ⊥

-- Each name once, and after its dependencies.
pub record IsOrdered (descriptors : List (ℕ × PluginDescriptor)) (names : List ℕ) : Type 0 where
  pub once : (i j n : ℕ) → get_elem? names i ≡ some n → get_elem? names j ≡ some n → i ≡ j
  pub earlier :
      (i n : ℕ)
      → get_elem? names i ≡ some n
      → (d : PluginDescriptor) × (lookup n descriptors ≡ some d)
        × ((x : ℕ) → Occurs x d.dependencies → (j : ℕ) × (j < i) × (get_elem? names j ≡ some x))

module _ (descriptors : List (ℕ × PluginDescriptor)) where
  pub record IsSound (v : Visits) : Type 0 where
    pub ordered : IsOrdered descriptors v.1
    pub done_is_in : (n : ℕ) → lookup n v.0 ≡ some done → Occurs n v.1
    pub in_is_done : (n : ℕ) → Occurs n v.1 → lookup n v.0 ≡ some done

  -- What later visits keep of earlier ones.
  pub record Extends (v w : Visits) : Type 0 where
    pub sound : IsSound w
    pub kept : (n : ℕ) (x : Visit) → lookup n v.0 ≡ some x → lookup n w.0 ≡ some x
    pub fewer : unvisited descriptors w.0 ≤ unvisited descriptors v.0
    pub open_before : (n : ℕ) → lookup n w.0 ≡ some visiting → lookup n v.0 ≡ some visiting

  -- A visit ends in an error only for a cycle.
  unfoldable pub Visited : List ℕ → Visits → Outcome Visits → Type 0
  Visited names v (refused r) = IsCycle descriptors r
  Visited names v (fine w) = Extends v w × ((n : ℕ) → Occurs n names → lookup n w.0 ≡ some done)

  pub finish-Extends :
      (name : ℕ) (d : PluginDescriptor) (v w : Visits)
      → lookup name v.0 ≡ none
      → lookup name descriptors ≡ some d
      → Extends (insert name visiting v.0, v.1) w
      → ((n : ℕ) → Occurs n d.dependencies → lookup n w.0 ≡ some done)
      → Extends v (finish name w)
  finish-Extends name d v w fresh known e deps = record {
    sound = record {
      ordered = record {
        once = λ i j n a b. elim (get_elem?-snoc_cases w.1 name n i a) [
          | inl left ↦ elim (get_elem?-snoc_cases w.1 name n j b) [
            | inl right ↦ e.sound.ordered.once i j n left right
            | inr (at, same) ↦ absurd (absent (i, left ∙ ap some same))
          ]
          | inr (at, same) ↦ elim (get_elem?-snoc_cases w.1 name n j b) [
            | inl right ↦ absurd (absent (j, right ∙ ap some same))
            | inr (there, also) ↦ at ∙ sym there
          ]
        ];
        earlier = λ i n a. elim (get_elem?-snoc_cases w.1 name n i a) [
          | inl left ↦
              let (f, key, before) = e.sound.ordered.earlier i n left in
              (
                f,
                key,
                λ x o. let (j, lt, at) = before x o in (j, lt, get_elem?-snoc_old w.1 name x j at),
              )
          | inr (at, same) ↦ (
            d,
            ap (λ k. lookup k descriptors) same ∙ known,
            λ x o.
                let (j, there) = e.sound.done_is_in x (deps x o) in
                (
                  j,
                  subst (λ k. j < k) (sym at) (lt_of_get_elem? w.1 j x there),
                  get_elem?-snoc_old w.1 name x j there,
                ),
          )
        ];
      };
      done_is_in = λ n a. elim (lookup-insert_cases name n done done w.0 a) [
        | inl (here, same) ↦ (length w.1, get_elem?-snoc_end w.1 name ∙ ap some here)
        | inr (other, was) ↦
            let (j, there) = e.sound.done_is_in n was in (j, get_elem?-snoc_old w.1 name n j there)
      ];
      in_is_done = λ n a.
          let (i, at) = a in
          elim (get_elem?-snoc_cases w.1 name n i at) [
            | inl left ↦ elim (ℕ_discrete name n) [
              | yes here ↦
                  ap (λ k. lookup k (insert name done w.0)) (sym here)
                  ∙ lookup-insert_self name done w.0
              | no other ↦
                  lookup-insert_other name n done w.0 other ∙ e.sound.in_is_done n (i, left)
            ]
            | inr (there, same) ↦
                ap (λ k. lookup k (insert name done w.0)) same ∙ lookup-insert_self name done w.0
          ];
    };
    kept = λ n x a.
        let other : name ≢ n =
          λ same. some_ne_none (sym a ∙ ap (λ k. lookup k v.0) (sym same) ∙ fresh) in
        lookup-insert_other name n done w.0 other
        ∙ e.kept n x (lookup-insert_other name n visiting v.0 other ∙ a);
    fewer = unvisited-le descriptors v.0 (insert name done w.0) covers;
    open_before = λ n a. elim (lookup-insert_cases name n done visiting w.0 a) [
      | inl (here, same) ↦ absurd (visiting_ne_done (ap some (sym same)))
      | inr (other, was) ↦ sym (lookup-insert_other name n visiting v.0 other) ∙ e.open_before n was
    ];
  }
    where
      still : lookup name w.0 ≡ some visiting
      still = e.kept name visiting (lookup-insert_self name visiting v.0)

      absent : Occurs name w.1 → ⊥
      absent o = visiting_ne_done (sym still ∙ e.sound.in_is_done name o)

      covers : Covers v.0 (insert name done w.0)
      covers n gone = elim (ℕ_discrete name n) [
        | yes here ↦ ap (λ k. lookup k v.0) (sym here) ∙ fresh
        | no other ↦ elim (Option-cases (lookup n v.0)) [
          | inl fresh_too ↦ fresh_too
          | inr (x, a) ↦ absurd (
              some_ne_none (
                sym (e.kept n x (lookup-insert_other name n visiting v.0 other ∙ a))
                ∙ sym (lookup-insert_other name n done w.0 other)
                ∙ gone))
        ]
      ]
