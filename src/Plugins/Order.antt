-- ===== src/Plugins/Order.antt =====
-- The order of the plugins: each after those it depends on, and none twice.
use native.Mathlib.Decide.{ℕ_discrete}
use rskynet.Base.{
  ℕ, zero, suc, ◌≤◌, ◌<◌, ◌≡◌, ◌≢◌, refl, sym, ap, subst, ◌∙◌, arith, List, [], ◌∷◌, Option, none,
  some, some_inj, some_ne_none, inl, inr, length, Occurs,
}
use rskynet.Base.Maps.{lookup, insert, lookup-insert_cases}
use rskynet.Plugins.{
  PluginDescriptor, Outcome, refused, fine, and_then, Visit, visiting, done, Visits, visit_each,
  finish, first_visit, by_state, visit_plugin, order,
}
use rskynet.Plugins.Count.{
  unvisited, Covers, lookup-insert_self, lookup-insert_other, visiting_ne_done, unvisited-lt,
}
use rskynet.Plugins.Visits.{
  AllEnabled, IsRanked, IsCycle, IsOrdered, IsSound, Extends, Visited, finish-Extends,
}

pub only : (n m : ℕ) → Occurs m (n ∷ []) → n ≡ m
only n m (zero, e) = some_inj e
only n m (suc i, e) = absurd (some_ne_none (sym e))

module _ (descriptors : List (ℕ × PluginDescriptor)) where
  Extends-trans :
      (u v w : Visits) → Extends descriptors u v → Extends descriptors v w → Extends descriptors u w
  Extends-trans u v w a b = record {
    sound = b.sound;
    kept = λ n x e. b.kept n x (a.kept n x e);
    fewer = omega (arith, a.fewer, b.fewer);
    open_before = λ n x. a.open_before n (b.open_before n x);
  }

  -- The names whose visits are not over rank above the name.
  IsBelow : ℕ → Visits → Type 0
  IsBelow n v =
      (ranked : IsRanked descriptors) (m : ℕ)
      → lookup m v.0 ≡ some visiting
      → ranked.rank n < ranked.rank m

  -- A visit of one name, for as many unvisited names as `bound`.
  VisitsOne : ℕ → (ℕ → Visits → Outcome Visits) → Type 0
  VisitsOne bound visit_one =
      (n : ℕ) (v : Visits)
      → IsSound descriptors v
      → unvisited descriptors v.0 < bound
      → (d : PluginDescriptor) × (lookup n descriptors ≡ some d)
      → IsBelow n v
      → Visited descriptors (n ∷ []) v (visit_one n v)

  join-Visited :
      (n : ℕ) (ns : List ℕ) (v w : Visits) (o : Outcome Visits)
      → Extends descriptors v w
      → ((m : ℕ) → Occurs m (n ∷ []) → lookup m w.0 ≡ some done)
      → Visited descriptors ns w o
      → Visited descriptors (n ∷ ns) v o
  unfolding Visited
  join-Visited n ns v w (refused r) ext first rest = rest
  join-Visited n ns v w (fine u) ext first (more, all) = (Extends-trans v w u ext more, each)
    where
      each : (m : ℕ) → Occurs m (n ∷ ns) → lookup m u.0 ≡ some done
      each m (zero, e) = more.kept m done (first m (0, e))
      each m (suc i, e) = all m (i, e)

  chain-Visited :
      (n : ℕ) (ns : List ℕ) (v : Visits) (o : Outcome Visits) (f : Visits → Outcome Visits)
      → Visited descriptors (n ∷ []) v o
      → ((w : Visits) → Extends descriptors v w → Visited descriptors ns w (f w))
      → Visited descriptors (n ∷ ns) v (and_then o f)
  unfolding Visited
  chain-Visited n ns v (refused r) f first rest = first
  chain-Visited n ns v (fine w) f (ext, all) rest = join-Visited n ns v w (f w) ext all (rest w ext)

  visit_each-Visited :
      (bound : ℕ) (visit_one : ℕ → Visits → Outcome Visits) (ns : List ℕ) (v : Visits)
      → VisitsOne bound visit_one
      → IsSound descriptors v
      → unvisited descriptors v.0 < bound
      → ((n : ℕ) → Occurs n ns → (d : PluginDescriptor) × (lookup n descriptors ≡ some d))
      → ((n : ℕ) → Occurs n ns → IsBelow n v)
      → Visited descriptors ns v (visit_each visit_one ns v)
  unfolding visit_each Visited VisitsOne IsBelow
  visit_each-Visited bound visit_one [] v ones sound few known below = (
    record { sound = sound; kept = λ n x e. e; fewer = omega arith; open_before = λ n e. e },
    λ n o. absurd (some_ne_none (sym o.1)),
  )
  visit_each-Visited bound visit_one (n ∷ ns) v ones sound few known below =
      chain-Visited n ns v (visit_one n v) (λ w. visit_each visit_one ns w)
        (ones n v sound few (known n (0, refl)) (below n (0, refl)))
        (λ w ext.
          visit_each-Visited bound visit_one ns w ones ext.sound (omega (arith, ext.fewer))
            (λ m o. let (i, e) = o in known m (suc i, e))
            (λ m o ranked k a. let (i, e) = o in below m (suc i, e) ranked k (ext.open_before k a)))

  mark-IsSound :
      (n : ℕ) (v : Visits)
      → lookup n v.0 ≡ none
      → IsSound descriptors v
      → IsSound descriptors (insert n visiting v.0, v.1)
  mark-IsSound n v fresh sound = record {
    ordered = sound.ordered;
    done_is_in = λ m a. elim (lookup-insert_cases n m visiting done v.0 a) [
      | inl (here, same) ↦ absurd (visiting_ne_done (ap some same))
      | inr (other, was) ↦ sound.done_is_in m was
    ];
    in_is_done = λ m o.
        let was : lookup m v.0 ≡ some done = sound.in_is_done m o in
        let other : n ≢ m =
          λ same. some_ne_none (sym was ∙ ap (λ k. lookup k v.0) (sym same) ∙ fresh) in
        lookup-insert_other n m visiting v.0 other ∙ was;
  }

  mark-fewer :
      (n : ℕ) (d : PluginDescriptor) (v : Visits)
      → lookup n v.0 ≡ none
      → lookup n descriptors ≡ some d
      → unvisited descriptors (insert n visiting v.0) < unvisited descriptors v.0
  mark-fewer n d v fresh key =
      unvisited-lt descriptors v.0 (insert n visiting v.0) n visiting d covers fresh
        (lookup-insert_self n visiting v.0) key
    where
      covers : Covers v.0 (insert n visiting v.0)
      covers m gone = elim (ℕ_discrete n m) [
        | yes here ↦ ap (λ k. lookup k v.0) (sym here) ∙ fresh
        | no other ↦ sym (lookup-insert_other n m visiting v.0 other) ∙ gone
      ]

  mark-IsBelow :
      (n : ℕ) (d : PluginDescriptor) (x : ℕ) (v : Visits)
      → lookup n descriptors ≡ some d
      → Occurs x d.dependencies
      → IsBelow n v
      → IsBelow x (insert n visiting v.0, v.1)
  unfolding IsBelow
  mark-IsBelow n d x v key o below ranked m a =
      elim (lookup-insert_cases n m visiting visiting v.0 a) [
        | inl (here, same) ↦
            subst (λ k. ranked.rank x < ranked.rank k) here (ranked.above n d key x o)
        | inr (other, was) ↦ omega (arith, ranked.above n d key x o, below ranked m was)
      ]

  finish-Visited :
      (n : ℕ) (d : PluginDescriptor) (v : Visits) (o : Outcome Visits)
      → lookup n v.0 ≡ none
      → lookup n descriptors ≡ some d
      → Visited descriptors d.dependencies (insert n visiting v.0, v.1) o
      → Visited descriptors (n ∷ []) v (and_then o (λ w. fine (finish n w)))
  unfolding Visited
  finish-Visited n d v (refused r) fresh key rest = rest
  finish-Visited n d v (fine w) fresh key (ext, all) = (
    finish-Extends descriptors n d v w fresh key ext all,
    λ m o.
        ap (λ k. lookup k (insert n done w.0)) (sym (only n m o)) ∙ lookup-insert_self n done w.0,
  )

  by_state-Visited :
      (n : ℕ) (v : Visits) (first : Outcome Visits)
      → IsSound descriptors v
      → IsBelow n v
      → (lookup n v.0 ≡ none → Visited descriptors (n ∷ []) v first)
      → Visited descriptors (n ∷ []) v (by_state (lookup n v.0) n v first)
  unfolding Visited IsBelow
  by_state-Visited n v first sound below fresh = go (lookup n v.0) refl
    where
      go :
          (o : Option Visit)
          → lookup n v.0 ≡ o
          → Visited descriptors (n ∷ []) v (by_state o n v first)
      go (some done) e = (
        record { sound = sound; kept = λ m x a. a; fewer = omega arith; open_before = λ m a. a },
        λ m o. ap (λ k. lookup k v.0) (sym (only n m o)) ∙ e,
      )
      go (some visiting) e = λ ranked. absurd (omega (arith, below ranked n e))
      go none e = fresh e

  visit_plugin-Visited :
      (fuel : ℕ)
      → AllEnabled descriptors
      → VisitsOne fuel (λ n v. visit_plugin fuel descriptors n v)
  unfolding visit_plugin VisitsOne Visited IsBelow
  visit_plugin-Visited zero closed n v sound few known below = absurd (omega arith)
  visit_plugin-Visited (suc fuel) closed n v sound few known below =
      let (d, key) = known in
      by_state-Visited n v _ sound below (λ fresh.
        subst
          (λ o.
            Visited descriptors (n ∷ []) v
              (first_visit (λ m w. visit_plugin fuel descriptors m w) o n v))
          (sym key)
          (finish-Visited n d v _ fresh key (
            visit_each-Visited fuel (λ m w. visit_plugin fuel descriptors m w) d.dependencies
              (insert n visiting v.0, v.1) (visit_plugin-Visited fuel closed)
              (mark-IsSound n v fresh sound) (omega (arith, mark-fewer n d v fresh key))
              (closed n d key) (λ x o. mark-IsBelow n d x v key o below))))

  start-IsSound : IsSound descriptors ([], [])
  start-IsSound = record {
    ordered = record {
      once = λ i j n a b. absurd (some_ne_none (sym a));
      earlier = λ i n a. absurd (some_ne_none (sym a));
    };
    done_is_in = λ n a. absurd (some_ne_none (sym a));
    in_is_done = λ n o. absurd (some_ne_none (sym o.1));
  }

  unvisited_at_first : (m : List (ℕ × PluginDescriptor)) → unvisited m [] ≤ length m
  unvisited_at_first [] = omega arith
  unvisited_at_first ((n, d) ∷ m) = omega (arith, unvisited_at_first m)

  -- What `order` may give.
  abbrev pub Sorts : List ℕ → Outcome (List ℕ) → Type 0
  Sorts names (refused r) = IsCycle descriptors r
  Sorts names (fine sorted) =
      IsOrdered descriptors sorted × ((n : ℕ) → Occurs n names → Occurs n sorted)

  -- When every name has a descriptor and every dependency is enabled: `order` ends within its fuel, and
  -- either refuses a cycle that is there or gives a list with all the names, each once and after all the plugins it
  -- depends on.
  pub order-Sorts :
      (names : List ℕ)
      → AllEnabled descriptors
      → ((n : ℕ) → Occurs n names → (d : PluginDescriptor) × (lookup n descriptors ≡ some d))
      → Sorts names (order descriptors names)
  unfolding order Visited IsBelow
  order-Sorts names closed known = last_step _ (
      visit_each-Visited (suc (length descriptors)) _ names ([], [])
        (visit_plugin-Visited (suc (length descriptors)) closed) start-IsSound
        (omega (arith, unvisited_at_first descriptors)) known
        (λ n o ranked m a. absurd (some_ne_none (sym a))))
    where
      last_step :
          (o : Outcome Visits)
          → Visited descriptors names ([], []) o
          → Sorts names (and_then o (λ v. fine v.1))
      last_step (refused r) c = c
      last_step (fine v) (ext, all) = (ext.sound.ordered, λ n o. ext.sound.done_is_in n (all n o))
