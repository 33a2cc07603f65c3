-- ===== src/Plugins/Load.antt =====
-- All of `resolve`: what it loads, and how it may end.
use native.Mathlib.Decide.{ℕ_discrete}
use mathlib.Core.List.{append_assoc, append-nil}
use rskynet.Base.{
  ℕ, zero, suc, ◌<◌, ◌≡◌, refl, sym, ap, subst, ◌∙◌, Bool, true, false, List, [], ◌∷◌, ◌++◌, Option,
  none, some, some_inj, some_ne_none, inl, inr, get_elem?, Occurs, Occurs-append_cases,
}
use rskynet.Base.Maps.{lookup, insert}
use rskynet.Plugins.{
  PluginDescriptor, PluginSpec, Outcome, refused, fine, Refusal, blank_name, repeated,
  not_registered, missing_dependency, command_clash, cycle, missing_key, out_of_fuel, and_then,
  order, read_specs, find_descriptors, check_enabled, check_commands, gather, resolve,
}
use rskynet.Plugins.Count.{lookup-insert_self, lookup-insert_other}
use rskynet.Plugins.Visits.{AllEnabled, IsCycle, IsOrdered}
use rskynet.Plugins.Order.{Sorts, order-Sorts, only}
use rskynet.Plugins.Closed.{
  IsProper, Ensures, and_then-Ensures, Ensures-map, Has, check_enabled-Ensures,
  check_commands-Ensures, Found, find_descriptors-Ensures,
}

IsCycle-IsProper : (m : List (ℕ × PluginDescriptor)) (r : Refusal) → IsCycle m r → IsProper r
IsCycle-IsProper m blank_name c = absurd c
IsCycle-IsProper m (repeated n) c = absurd c
IsCycle-IsProper m (not_registered n) c = absurd c
IsCycle-IsProper m (missing_dependency n d) c = absurd c
IsCycle-IsProper m (command_clash c p n) e = absurd e
IsCycle-IsProper m (cycle n) c = tt
IsCycle-IsProper m (missing_key n) c = absurd c
IsCycle-IsProper m out_of_fuel c = absurd c

abbrev Ordered : List (ℕ × PluginDescriptor) → List ℕ → List ℕ → Type 0
Ordered m names sorted = IsOrdered m sorted × ((n : ℕ) → Occurs n names → Occurs n sorted)

Sorts-Ensures :
    (m : List (ℕ × PluginDescriptor)) (names : List ℕ) (o : Outcome (List ℕ))
    → Sorts m names o
    → Ensures (Ordered m names) o
Sorts-Ensures m names (refused r) c = IsCycle-IsProper m r c
Sorts-Ensures m names (fine sorted) v = v

abbrev pub names_of : {C : Type 0} → List (PluginSpec C) → List ℕ
names_of [] = []
names_of (s ∷ ss) = s.name ∷ names_of ss

module _ {C : Type 0} where
  -- The names that were read, each with its spec.
  abbrev Read : List ℕ → List (ℕ × PluginSpec C) × List ℕ → Type 0
  Read names x = (x.1 ≡ names) × ((n : ℕ) → Occurs n names → Has n x.0)

  read_specs-Ensures :
      (blank : ℕ → Bool) (ss : List (PluginSpec C)) (specs : List (ℕ × PluginSpec C))
      (names : List ℕ)
      → ((n : ℕ) → Occurs n names → Has n specs)
      → Ensures (Read (names ++ names_of ss)) (read_specs blank ss specs names)
  unfolding read_specs
  read_specs-Ensures blank [] specs names v =
      subst (λ xs. Read xs (specs, names)) (sym (append-nil names)) (refl, v)
  read_specs-Ensures blank (s ∷ ss) specs names v =
      go (blank s.name) refl (lookup s.name specs) refl (
        subst
          (λ xs.
            Ensures (Read xs) (read_specs blank ss (insert s.name s specs) (names ++ s.name ∷ [])))
          (append_assoc names (s.name ∷ []) (names_of ss))
          (read_specs-Ensures blank ss (insert s.name s specs) (names ++ s.name ∷ []) added))
    where
      added : (n : ℕ) → Occurs n (names ++ s.name ∷ []) → Has n (insert s.name s specs)
      added n o = elim (ℕ_discrete s.name n) [
        | yes here ↦ (
          s,
          ap (λ k. lookup k (insert s.name s specs)) (sym here) ∙ lookup-insert_self s.name s specs,
        )
        | no other ↦ elim (Occurs-append_cases n names (s.name ∷ []) o) [
          | inl old ↦ let (f, at) = v n old in (f, lookup-insert_other s.name n s specs other ∙ at)
          | inr last ↦ absurd (other (only s.name n last))
        ]
      ]

      go :
          (b : Bool)
          → blank s.name ≡ b
          → (o : Option (PluginSpec C)) → lookup s.name specs ≡ o
          → Ensures
              (Read (names ++ (s.name ∷ names_of ss)))
              (read_specs blank ss (insert s.name s specs) (names ++ s.name ∷ []))
          → Ensures (Read (names ++ (s.name ∷ names_of ss))) (read_specs blank (s ∷ ss) specs names)
      go true e o f rest = rw (read_specs, e) tt
      go false e (some old) f rest = rw (read_specs, e, f) tt
      go false e none f rest = rw (read_specs, e, f) rest

  -- The list has the descriptors of the names, in their order.
  record Gathered (descriptors : List (ℕ × PluginDescriptor)) (ns : List ℕ)
      (out : List (PluginDescriptor × C)) : Type 0 where
    there :
        (i n : ℕ)
        → get_elem? ns i ≡ some n
        → (p : PluginDescriptor × C) × (get_elem? out i ≡ some p)
          × (lookup n descriptors ≡ some p.0)
    back :
        (i : ℕ) (p : PluginDescriptor × C)
        → get_elem? out i ≡ some p
        → (n : ℕ) × (get_elem? ns i ≡ some n) × (lookup n descriptors ≡ some p.0)

  gather-Ensures :
      (descriptors : List (ℕ × PluginDescriptor)) (specs : List (ℕ × PluginSpec C)) (ns : List ℕ)
      → ((n : ℕ) → Occurs n ns → Has n descriptors × Has n specs)
      → Ensures (Gathered descriptors ns) (gather descriptors specs ns)
  unfolding gather
  gather-Ensures descriptors specs [] v = record {
    there = λ i n e. absurd (some_ne_none (sym e));
    back = λ i p e. absurd (some_ne_none (sym e));
  }
  gather-Ensures descriptors specs (n ∷ ns) v =
      let ((d, at), (s, there)) = v n (0, refl) in
      rw (gather, at, there)
        (and_then-Ensures (Gathered descriptors ns) (Gathered descriptors (n ∷ ns))
          (gather descriptors specs ns) _
          (gather-Ensures descriptors specs ns (λ m o. let (i, e) = o in v m (suc i, e)))
          (λ rest g. longer d s.config rest at g))
    where
      longer :
          (d : PluginDescriptor) (c : C) (rest : List (PluginDescriptor × C))
          → lookup n descriptors ≡ some d
          → Gathered descriptors ns rest
          → Gathered descriptors (n ∷ ns) ((d, c) ∷ rest)
      longer d c rest at g = record { there = there; back = back }
        where
          there :
              (i m : ℕ)
              → get_elem? (n ∷ ns) i ≡ some m
              → (p : PluginDescriptor × C) × (get_elem? ((d, c) ∷ rest) i ≡ some p)
                × (lookup m descriptors ≡ some p.0)
          there zero m e = ((d, c), refl, ap (λ k. lookup k descriptors) (sym (some_inj e)) ∙ at)
          there (suc i) m e = g.there i m e

          back :
              (i : ℕ) (p : PluginDescriptor × C)
              → get_elem? ((d, c) ∷ rest) i ≡ some p
              → (m : ℕ) × (get_elem? (n ∷ ns) i ≡ some m) × (lookup m descriptors ≡ some p.0)
          back zero p e = (n, refl, at ∙ ap (λ (x : PluginDescriptor × C). some x.0) (some_inj e))
          back (suc i) p e = g.back i p e

  -- What is loaded: each configured plugin, as it is registered, and each after what it depends on.
  pub record IsLoaded (registry : ℕ → Option PluginDescriptor) (plugins : List (PluginSpec C))
      (out : List (PluginDescriptor × C)) : Type 0 where
    pub configured :
        (n : ℕ)
        → Occurs n (names_of plugins)
        → (i : ℕ) × (p : PluginDescriptor × C) × (get_elem? out i ≡ some p)
          × (registry n ≡ some p.0)
    pub earlier :
        (i : ℕ) (p : PluginDescriptor × C)
        → get_elem? out i ≡ some p
        → (x : ℕ) → Occurs x p.0.dependencies
        → (j : ℕ) × (q : PluginDescriptor × C) × (j < i)
          × (get_elem? out j ≡ some q)
          × (registry x ≡ some q.0)

  load :
      (registry : ℕ → Option PluginDescriptor) (plugins : List (PluginSpec C))
      (input : List (ℕ × PluginSpec C) × List ℕ) (m : List (ℕ × PluginDescriptor))
      → Read (names_of plugins) input
      → Found registry input.1 m
      → AllEnabled m
      → Ensures
          (IsLoaded registry plugins)
          (and_then (order m input.1) (λ names. gather m input.0 names))
  load registry plugins input m (read, has) found closed =
      and_then-Ensures (Ordered m input.1) _ (order m input.1) _
        (Sorts-Ensures m input.1 (order m input.1) (order-Sorts m input.1 closed found.all))
        (λ sorted ordered.
          Ensures-map (Gathered m sorted) _ (gather m input.0 sorted)
            (λ out g. loaded sorted out ordered g)
            (gather-Ensures m input.0 sorted (λ n o. known sorted ordered.0 n o)))
    where
      known :
          (sorted : List ℕ)
          → IsOrdered m sorted
          → (n : ℕ) → Occurs n sorted
          → Has n m × Has n input.0
      known sorted ordered n (i, at) =
          let (d, key, before) = ordered.earlier i n at in
          ((d, key), has n (subst (Occurs n) read (found.mine n d key).0))

      loaded :
          (sorted : List ℕ) (out : List (PluginDescriptor × C))
          → Ordered m input.1 sorted
          → Gathered m sorted out
          → IsLoaded registry plugins out
      loaded sorted out (ordered, all) g = record {
        configured = λ n o.
            let (i, at) = all n (subst (Occurs n) (sym read) o) in
            let (p, there, key) = g.there i n at in (i, p, there, (found.mine n p.0 key).1);
        earlier = λ i p at x o.
            let (n, nth, key) = g.back i p at in
            let (d, also, before) = ordered.earlier i n nth in
            let same : p.0 ≡ d = some_inj (sym key ∙ also) in
            let (j, lt, jth) =
              before x (subst (λ (y : PluginDescriptor). Occurs x y.dependencies) same o) in
            let (q, there, mine) = g.there j x jth in (j, q, lt, there, (found.mine x q.0 mine).1);
      }

  -- However the plugins are configured and registered: `resolve` ends within its fuel and misses no
  -- key of its maps; and what it gives holds every configured plugin, as it is registered, and before
  -- each plugin all those that it depends on.
  pub resolve-Ensures :
      (blank : ℕ → Bool) (registry : ℕ → Option PluginDescriptor) (plugins : List (PluginSpec C))
      → Ensures (IsLoaded registry plugins) (resolve blank registry plugins)
  unfolding resolve
  resolve-Ensures blank registry plugins =
      and_then-Ensures _ _ (read_specs blank plugins [] []) _
        (read_specs-Ensures blank plugins [] [] (λ n o. absurd (some_ne_none (sym o.1))))
        (λ input read.
          and_then-Ensures (Found registry input.1) _ (find_descriptors registry input.1 []) _
            (find_descriptors-Ensures registry input.1 [] [] (record {
              all = λ n o. absurd (some_ne_none (sym o.1));
              mine = λ n d e. absurd (some_ne_none (sym e));
            }))
            (λ m found.
              and_then-Ensures _ _ (check_enabled m m) _ (check_enabled-Ensures m m) (λ u closed.
                and_then-Ensures _ _ (check_commands m []) _ (check_commands-Ensures m [])
                  (λ o w. load registry plugins input m read found closed))))
