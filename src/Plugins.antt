-- ===== src/Plugins.antt =====
-- crates/rskynet-plugin/src/lib.rs: which plugins of a namespace are loaded, and in which order. A name
-- is a number, as names are only compared; `blank` says which names are blank, and `C` is the type
-- of a plugin's configuration. The registry of a namespace is a function from names, an argument.
-- Hash maps are walked in the order of the configuration, which matters only to the choice among
-- several errors.
pub mod Count
pub mod Visits
pub mod Order
pub mod Closed
pub mod Load
mod Examples
use rskynet.Base.{
  ℕ, zero, suc, Bool, true, false, List, [], ◌∷◌, ◌++◌, Option, none, some, if◌then◌else◌, length,
}
use rskynet.Base.Maps.{lookup, insert}

pub record PluginDescriptor : Type 0 where
  pub name : ℕ
  pub dependencies : List ℕ
  pub commands : List ℕ

pub record PluginSpec (C : Type 0) : Type 0 where
  pub name : ℕ
  pub config : C

-- The errors of `resolve`, and what the model adds: a missing key of a map, and no end of the fuel.
pub data Refusal : Type 0 where
  blank_name : Refusal
  repeated : ℕ → Refusal
  not_registered : ℕ → Refusal
  missing_dependency : ℕ → ℕ → Refusal
  command_clash : ℕ → ℕ → ℕ → Refusal
  cycle : ℕ → Refusal
  missing_key : ℕ → Refusal
  out_of_fuel : Refusal

pub data Outcome (A : Type 0) : Type 0 where
  refused : Refusal → Outcome A
  fine : A → Outcome A

abbrev pub and_then : {A B : Type 0} → Outcome A → (A → Outcome B) → Outcome B
and_then (refused r) f = refused r
and_then (fine a) f = f a

pub data Visit : Type 0 where
  visiting : Visit
  done : Visit

-- The states of the visit and the names in order.
abbrev pub Visits : Type 0
Visits = List (ℕ × Visit) × List ℕ

-- The visits of a list of names, given that of one.
unfoldable pub visit_each : (ℕ → Visits → Outcome Visits) → List ℕ → Visits → Outcome Visits
visit_each visit_one [] v = fine v
visit_each visit_one (n ∷ ns) v = and_then (visit_one n v) (λ w. visit_each visit_one ns w)

-- The name is done, and pushed.
abbrev pub finish : ℕ → Visits → Visits
finish name v = (insert name done v.0, v.1 ++ name ∷ [])

-- The first visit of a name; its dependencies are visited before it is done.
abbrev pub first_visit :
    (ℕ → Visits → Outcome Visits) → Option PluginDescriptor → ℕ → Visits → Outcome Visits
first_visit visit_one none name v = refused (missing_key name)
first_visit visit_one (some d) name v =
    and_then (visit_each visit_one d.dependencies (insert name visiting v.0, v.1))
      (λ w. fine (finish name w))

-- What a visit does by the state of the name; the last argument is its first visit.
abbrev pub by_state : Option Visit → ℕ → Visits → Outcome Visits → Outcome Visits
by_state (some done) name v first = fine v
by_state (some visiting) name v first = refused (cycle name)
by_state none name v first = first

unfoldable pub visit_plugin : ℕ → List (ℕ × PluginDescriptor) → ℕ → Visits → Outcome Visits
unfolding visit_each
visit_plugin zero descriptors name v = refused out_of_fuel
visit_plugin (suc fuel) descriptors name v =
    by_state (lookup name v.0) name v
      (first_visit (λ n w. visit_plugin fuel descriptors n w) (lookup name descriptors) name v)

-- Each nested visit marks one name more, so there are at most as many as descriptors.
unfoldable pub order : List (ℕ × PluginDescriptor) → List ℕ → Outcome (List ℕ)
unfolding visit_each
order descriptors names =
    and_then
      (visit_each (λ n w. visit_plugin (suc (length descriptors)) descriptors n w) names ([], []))
      (λ v. fine v.1)

module _ {C : Type 0} (blank : ℕ → Bool) where
  -- The specs by their names, and the names in order.
  unfoldable pub read_specs :
      List (PluginSpec C)
      → List (ℕ × PluginSpec C)
      → List ℕ
      → Outcome (List (ℕ × PluginSpec C) × List ℕ)
  read_specs [] specs names = fine (specs, names)
  read_specs (s ∷ ss) specs names =
      let rest = read_specs ss (insert s.name s specs) (names ++ s.name ∷ []) in
      if blank s.name
      then refused blank_name
      else elim (lookup s.name specs) [ some old ↦ refused (repeated s.name) | none ↦ rest ]

unfoldable pub find_descriptors :
    (ℕ → Option PluginDescriptor)
    → List ℕ
    → List (ℕ × PluginDescriptor)
    → Outcome (List (ℕ × PluginDescriptor))
find_descriptors registry [] found = fine found
find_descriptors registry (n ∷ ns) found = elim (registry n) [
  | none ↦ refused (not_registered n)
  | some d ↦ find_descriptors registry ns (insert n d found)
]

-- The first dependency that is not enabled.
unfoldable pub check_dependencies : ℕ → List ℕ → List (ℕ × PluginDescriptor) → Outcome Unit
check_dependencies name [] descriptors = fine tt
check_dependencies name (d ∷ ds) descriptors = elim (lookup d descriptors) [
  | none ↦ refused (missing_dependency name d)
  | some e ↦ check_dependencies name ds descriptors
]

unfoldable pub check_enabled :
    List (ℕ × PluginDescriptor) → List (ℕ × PluginDescriptor) → Outcome Unit
unfolding check_dependencies
check_enabled [] descriptors = fine tt
check_enabled ((n, d) ∷ m) descriptors =
    and_then (check_dependencies d.name d.dependencies descriptors)
      (λ u. check_enabled m descriptors)

-- The commands by their plugin, so far.
unfoldable pub claim_commands : ℕ → List ℕ → List (ℕ × ℕ) → Outcome (List (ℕ × ℕ))
claim_commands name [] owners = fine owners
claim_commands name (c ∷ cs) owners = elim (lookup c owners) [
  | some previous ↦ refused (command_clash c previous name)
  | none ↦ claim_commands name cs (insert c name owners)
]

unfoldable pub check_commands : List (ℕ × PluginDescriptor) → List (ℕ × ℕ) → Outcome (List (ℕ × ℕ))
unfolding claim_commands
check_commands [] owners = fine owners
check_commands ((n, d) ∷ m) owners =
    and_then (claim_commands d.name d.commands owners) (λ o. check_commands m o)

-- The descriptor and the configuration of each name.
unfoldable pub gather :
    {C : Type 0}
    → List (ℕ × PluginDescriptor)
    → List (ℕ × PluginSpec C)
    → List ℕ
    → Outcome (List (PluginDescriptor × C))
gather descriptors specs [] = fine []
gather descriptors specs (n ∷ ns) = elim (lookup n descriptors) [
  | none ↦ refused (missing_key n)
  | some d ↦ elim (lookup n specs) [
    | none ↦ refused (missing_key n)
    | some s ↦ and_then (gather descriptors specs ns) (λ rest. fine ((d, s.config) ∷ rest))
  ]
]

unfoldable pub resolve :
    {C : Type 0}
    → (ℕ → Bool)
    → (ℕ → Option PluginDescriptor)
    → List (PluginSpec C)
    → Outcome (List (PluginDescriptor × C))
unfolding read_specs find_descriptors check_enabled check_commands order gather
resolve blank registry plugins = and_then (read_specs blank plugins [] []) (λ input.
    and_then (find_descriptors registry input.1 []) (λ descriptors.
      and_then (check_enabled descriptors descriptors) (λ u.
        and_then (check_commands descriptors []) (λ owners.
          and_then (order descriptors input.1) (λ names. gather descriptors input.0 names)))))
