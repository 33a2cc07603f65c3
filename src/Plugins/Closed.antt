-- ===== src/Plugins/Closed.antt =====
-- What the checks of `resolve` establish.
use native.Mathlib.Decide.{ℕ_discrete}
use mathlib.Core.List.{append_assoc, append-nil}
use rskynet.Base.{
  ℕ, zero, suc, ◌≡◌, refl, sym, ap, subst, ◌∙◌, List, [], ◌∷◌, ◌++◌, Option, none, some, some_inj,
  some_ne_none, Bool-cases, ◌==◌, inl, inr, Occurs, Occurs-append_cases, Occurs-append_left,
  Occurs-append_right,
}
use rskynet.Base.Maps.{lookup, insert, lookup-insert_cases}
use rskynet.Plugins.{
  PluginDescriptor, Outcome, refused, fine, Refusal, missing_key, out_of_fuel, and_then,
  find_descriptors, check_dependencies, check_enabled, claim_commands, check_commands,
}
use rskynet.Plugins.Count.{lookup-insert_self, lookup-insert_other}
use rskynet.Plugins.Order.{only}

-- The refusals that the source has: no key is missing, and no loop goes on.
abbrev pub IsProper : Refusal → Type 0
IsProper (missing_key n) = ⊥
IsProper out_of_fuel = ⊥
IsProper _ = Unit

-- A proper refusal, or a result with a property.
abbrev pub Ensures : {A : Type 0} → (A → Type 0) → Outcome A → Type 0
Ensures P (refused r) = IsProper r
Ensures P (fine a) = P a

pub and_then-Ensures :
    {A B : Type 0} (P : A → Type 0) (Q : B → Type 0) (o : Outcome A) (f : A → Outcome B)
    → Ensures P o
    → ((a : A) → P a → Ensures Q (f a))
    → Ensures Q (and_then o f)
and_then-Ensures P Q (refused r) f e next = e
and_then-Ensures P Q (fine a) f e next = next a e

pub Ensures-map :
    {A : Type 0} (P Q : A → Type 0) (o : Outcome A)
    → ((a : A) → P a → Q a)
    → Ensures P o
    → Ensures Q o
Ensures-map P Q (refused r) f e = e
Ensures-map P Q (fine a) f e = f a e

-- Some entry of a map.
abbrev pub Has : {V : Type 0} → ℕ → List (ℕ × V) → Type 0
Has {V} n m = (v : V) × (lookup n m ≡ some v)

check_dependencies-Ensures :
    (name : ℕ) (ds : List ℕ) (descriptors : List (ℕ × PluginDescriptor))
    → Ensures
        (λ u. (x : ℕ) → Occurs x ds → Has x descriptors)
        (check_dependencies name ds descriptors)
unfolding check_dependencies
check_dependencies-Ensures name [] descriptors = λ x o. absurd (some_ne_none (sym o.1))
check_dependencies-Ensures name (d ∷ ds) descriptors =
    go (lookup d descriptors) refl (check_dependencies-Ensures name ds descriptors)
  where
    Goal : List ℕ → Unit {0} → Type 0
    Goal xs u = (x : ℕ) → Occurs x xs → Has x descriptors

    go :
        (o : Option PluginDescriptor)
        → lookup d descriptors ≡ o
        → Ensures (Goal ds) (check_dependencies name ds descriptors)
        → Ensures (Goal (d ∷ ds)) (check_dependencies name (d ∷ ds) descriptors)
    go none e rest = rw (check_dependencies, e) tt
    go (some found) e rest =
        rw (check_dependencies, e)
          (Ensures-map (Goal ds) (Goal (d ∷ ds)) (check_dependencies name ds descriptors)
            (λ u all x o. more all x o) rest)
      where
        more :
            ((x : ℕ) → Occurs x ds → Has x descriptors)
            → (x : ℕ) → Occurs x (d ∷ ds)
            → Has x descriptors
        more all x (zero, at) = (found, ap (λ k. lookup k descriptors) (sym (some_inj at)) ∙ e)
        more all x (suc i, at) = all x (i, at)

pub check_enabled-Ensures :
    (m descriptors : List (ℕ × PluginDescriptor))
    → Ensures
        (λ u.
          (n : ℕ) (d : PluginDescriptor)
          → lookup n m ≡ some d
          → (x : ℕ) → Occurs x d.dependencies
          → Has x descriptors)
        (check_enabled m descriptors)
unfolding check_enabled
check_enabled-Ensures [] descriptors = λ n d e. absurd (some_ne_none (sym e))
check_enabled-Ensures ((n, d) ∷ m) descriptors =
    and_then-Ensures _ _ (check_dependencies d.name d.dependencies descriptors) _
      (check_dependencies-Ensures d.name d.dependencies descriptors)
      (λ u first.
        Ensures-map (Enabled m) (Enabled ((n, d) ∷ m)) (check_enabled m descriptors)
          (λ w rest k f at. elim (Bool-cases (n == k)) [
            | inl here ↦
                let same : d ≡ f = some_inj (rw here at at) in
                subst
                  (λ (y : PluginDescriptor). (x : ℕ) → Occurs x y.dependencies → Has x descriptors)
                  same first
            | inr other ↦ rest k f (rw other at at)
          ])
          (check_enabled-Ensures m descriptors))
  where
    Enabled : List (ℕ × PluginDescriptor) → Unit {0} → Type 0
    Enabled l u =
        (k : ℕ) (f : PluginDescriptor)
        → lookup k l ≡ some f
        → (x : ℕ) → Occurs x f.dependencies
        → Has x descriptors

claim_commands-Ensures :
    (name : ℕ) (cs : List ℕ) (owners : List (ℕ × ℕ))
    → Ensures (λ o. Unit) (claim_commands name cs owners)
unfolding claim_commands
claim_commands-Ensures name [] owners = tt
claim_commands-Ensures name (c ∷ cs) owners =
    go (lookup c owners) refl (claim_commands-Ensures name cs (insert c name owners))
  where
    go :
        (o : Option ℕ)
        → lookup c owners ≡ o
        → Ensures (λ x. Unit) (claim_commands name cs (insert c name owners))
        → Ensures (λ x. Unit) (claim_commands name (c ∷ cs) owners)
    go none e rest = rw (claim_commands, e) rest
    go (some previous) e rest = rw (claim_commands, e) tt

pub check_commands-Ensures :
    (m : List (ℕ × PluginDescriptor)) (owners : List (ℕ × ℕ))
    → Ensures (λ o. Unit) (check_commands m owners)
unfolding check_commands
check_commands-Ensures [] owners = tt
check_commands-Ensures ((n, d) ∷ m) owners =
    and_then-Ensures _ _ (claim_commands d.name d.commands owners) _
      (claim_commands-Ensures d.name d.commands owners) (λ o u. check_commands-Ensures m o)

module _ (registry : ℕ → Option PluginDescriptor) where
  -- The descriptors are those of the names.
  pub record Found (names : List ℕ) (m : List (ℕ × PluginDescriptor)) : Type 0 where
    pub all : (n : ℕ) → Occurs n names → Has n m
    pub mine :
        (n : ℕ) (d : PluginDescriptor)
        → lookup n m ≡ some d
        → Occurs n names × (registry n ≡ some d)

  pub find_descriptors-Ensures :
      (ns before : List ℕ) (m : List (ℕ × PluginDescriptor))
      → Found before m
      → Ensures (Found (before ++ ns)) (find_descriptors registry ns m)
  unfolding find_descriptors
  find_descriptors-Ensures [] before m v = subst (λ xs. Found xs m) (sym (append-nil before)) v
  find_descriptors-Ensures (n ∷ ns) before m v =
      go (registry n) refl
        (λ d e. find_descriptors-Ensures ns (before ++ n ∷ []) (insert n d m) (added d e))
    where
      added : (d : PluginDescriptor) → registry n ≡ some d → Found (before ++ n ∷ []) (insert n d m)
      added d e = record {
        all = λ k o. elim (ℕ_discrete n k) [
          | yes here ↦ (d, ap (λ x. lookup x (insert n d m)) (sym here) ∙ lookup-insert_self n d m)
          | no other ↦ elim (Occurs-append_cases k before (n ∷ []) o) [
            | inl old ↦ let (f, at) = v.all k old in (f, lookup-insert_other n k d m other ∙ at)
            | inr last ↦ absurd (other (only n k last))
          ]
        ];
        mine = λ k f at. elim (lookup-insert_cases n k d f m at) [
          | inl (here, same) ↦ (
            subst (λ x. Occurs x (before ++ n ∷ [])) here
                (Occurs-append_right n before (n ∷ []) (0, refl)),
            ap registry (sym here) ∙ e ∙ ap some same,
          )
          | inr (other, was) ↦
              let (o, r) = v.mine k f was in (Occurs-append_left k before (n ∷ []) o, r)
        ];
      }

      go :
          (o : Option PluginDescriptor)
          → registry n ≡ o
          → ((d : PluginDescriptor)
              → registry n ≡ some d
              → Ensures
                  (Found (before ++ n ∷ [] ++ ns))
                  (find_descriptors registry ns (insert n d m)))
          → Ensures (Found (before ++ (n ∷ ns))) (find_descriptors registry (n ∷ ns) m)
      go none e rest = rw (find_descriptors, e) tt
      go (some d) e rest =
          rw (find_descriptors, e)
            (subst (λ xs. Ensures (Found xs) (find_descriptors registry ns (insert n d m)))
              (append_assoc before (n ∷ []) ns) (rest d e))
