-- ===== src/Plugins/Count.antt =====
-- The names that no visit has reached yet.
use native.Mathlib.Decide.{ℕ_discrete}
use rskynet.Base.{
  ℕ, ◌+◌, ◌≤◌, ◌<◌, ◌≡◌, ◌≢◌, refl, sym, ap, ◌∙◌, arith, Bool, true, false, true_ne_false, List, [],
  ◌∷◌, Option, none, some, some_inj, some_ne_none, ◌==◌,
}
use rskynet.Base.Maps.{lookup, insert, lookup-insert}
use rskynet.Plugins.{PluginDescriptor, Visit, visiting, done}

-- How many names are not visited yet.
abbrev pub weigh : Option Visit → ℕ
weigh none = 1
weigh (some v) = 0

abbrev pub unvisited : List (ℕ × PluginDescriptor) → List (ℕ × Visit) → ℕ
unvisited [] states = 0
unvisited ((n, d) ∷ m) states = weigh (lookup n states) + unvisited m states

pub lookup-insert_self :
    {V : Type 0} (k : ℕ) (v : V) (m : List (ℕ × V)) → lookup k (insert k v m) ≡ some v
lookup-insert_self k v m =
    let self : (k == k) ≡ true = ground arith in lookup-insert k k v m ∙ (rw self refl)

pub lookup-insert_other :
    {V : Type 0} (k j : ℕ) (v : V) (m : List (ℕ × V)) → k ≢ j → lookup j (insert k v m) ≡ lookup j m
lookup-insert_other k j v m ne =
    let other : (k == j) ≡ false = ground arith in lookup-insert k j v m ∙ (rw other refl)

is_done : Visit → Bool
is_done done = true
is_done visiting = false

pub visiting_ne_done : some visiting ≢ some done
unfolding is_done
visiting_ne_done e = true_ne_false (sym (ap is_done (some_inj e)))

-- The states of `t` cover those of `s`.
abbrev pub Covers : List (ℕ × Visit) → List (ℕ × Visit) → Type 0
Covers s t = (n : ℕ) → lookup n t ≡ none → lookup n s ≡ none

weigh-le : (a b : Option Visit) → (a ≡ none → b ≡ none) → weigh a ≤ weigh b
weigh-le none none c = omega arith
weigh-le none (some y) c = absurd (some_ne_none (c refl))
weigh-le (some x) b c = omega arith

pub unvisited-le :
    (m : List (ℕ × PluginDescriptor)) (s t : List (ℕ × Visit))
    → Covers s t
    → unvisited m t ≤ unvisited m s
unvisited-le [] s t c = omega arith
unvisited-le ((n, d) ∷ m) s t c =
    omega (arith, weigh-le (lookup n t) (lookup n s) (c n), unvisited-le m s t c)

pub unvisited-lt :
    (m : List (ℕ × PluginDescriptor)) (s t : List (ℕ × Visit)) (name : ℕ) (x : Visit)
    (d : PluginDescriptor)
    → Covers s t
    → lookup name s ≡ none
    → lookup name t ≡ some x
    → lookup name m ≡ some d
    → unvisited m t < unvisited m s
unvisited-lt [] s t name x d c fresh now key = absurd (some_ne_none (sym key))
unvisited-lt ((n, e) ∷ m) s t name x d c fresh now key = elim (ℕ_discrete n name) [
  | yes here ↦
      let was : lookup n s ≡ none = ap (λ k. lookup k s) here ∙ fresh in
      let is : lookup n t ≡ some x = ap (λ k. lookup k t) here ∙ now in
      omega (arith, ap weigh was, ap weigh is, unvisited-le m s t c)
  | no other ↦
      let off : (n == name) ≡ false = ground arith in
      let rest : unvisited m t < unvisited m s =
        unvisited-lt m s t name x d c fresh now (rw off at key) in
      omega (arith, weigh-le (lookup n t) (lookup n s) (c n), rest)
]
