-- ===== src/Plugins/Examples.antt =====
-- Tests of the plugins, and the theorems on concrete ones.
use rskynet.Base.{
  ℕ, zero, suc, ◌≡◌, refl, List, [], ◌∷◌, Option, some, some_inj, some_ne_none, ◌==◌, Occurs, sym,
  ap,
}
use rskynet.Base.Maps.{lookup}
use rskynet.Plugins.{
  PluginDescriptor, PluginSpec, refused, fine, cycle, order, visit_each, visit_plugin, resolve,
  check_enabled, check_dependencies,
}
use rskynet.Plugins.Visits.{AllEnabled}
use rskynet.Plugins.Order.{Sorts, order-Sorts}
use rskynet.Plugins.Closed.{Ensures, check_enabled-Ensures}
use rskynet.Plugins.Load.{IsLoaded, resolve-Ensures}

abbrev plugin : ℕ → List ℕ → PluginDescriptor
plugin name dependencies = record { name = name; dependencies = dependencies; commands = name ∷ [] }

-- 1 depends on 2 and 3, and 2 on 3.
abbrev three : List (ℕ × PluginDescriptor)
three = (1, plugin 1 (2 ∷ 3 ∷ [])) ∷ (2, plugin 2 (3 ∷ [])) ∷ (3, plugin 3 []) ∷ []

three_in_order : order three (1 ∷ 2 ∷ 3 ∷ []) ≡ fine (3 ∷ 2 ∷ 1 ∷ [])
unfolding order visit_each visit_plugin
three_in_order = refl

two_in_a_cycle :
    order ((1, plugin 1 (2 ∷ [])) ∷ (2, plugin 2 (1 ∷ [])) ∷ []) (1 ∷ 2 ∷ []) ≡ refused (cycle 1)
unfolding order visit_each visit_plugin
two_in_a_cycle = refl

three-AllEnabled : AllEnabled three
unfolding check_enabled check_dependencies
three-AllEnabled = check_enabled-Ensures three three

three_known :
    (n : ℕ) → Occurs n (1 ∷ 2 ∷ 3 ∷ []) → (d : PluginDescriptor) × (lookup n three ≡ some d)
three_known n (zero, e) = (plugin 1 (2 ∷ 3 ∷ []), ap (λ k. lookup k three) (sym (some_inj e)))
three_known n (suc zero, e) = (plugin 2 (3 ∷ []), ap (λ k. lookup k three) (sym (some_inj e)))
three_known n (suc (suc zero), e) = (plugin 3 [], ap (λ k. lookup k three) (sym (some_inj e)))
three_known n (suc (suc (suc i)), e) = absurd (some_ne_none (sym e))

order-Sorts_example : Sorts three (1 ∷ 2 ∷ 3 ∷ []) (order three (1 ∷ 2 ∷ 3 ∷ []))
order-Sorts_example = order-Sorts three (1 ∷ 2 ∷ 3 ∷ []) three-AllEnabled three_known

abbrev known_plugins : ℕ → Option PluginDescriptor
known_plugins n = lookup n three

abbrev both_configured : List (PluginSpec ℕ)
both_configured = record { name = 2; config = 20 } ∷ record { name = 3; config = 30 } ∷ []

resolve-Ensures_example :
    Ensures
      (IsLoaded known_plugins both_configured)
      (resolve (λ n. n == 0) known_plugins both_configured)
resolve-Ensures_example = resolve-Ensures (λ n. n == 0) known_plugins both_configured
