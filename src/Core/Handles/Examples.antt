-- ===== src/Core/Handles/Examples.antt =====
-- Runs of the handle table, and the theorems on them.
use Prim.Native.String.{String}
use rskynet.Base.{
  ℕ, ◌+◌, ◌≡◌, ◌≢◌, refl, sym, arith, true, false, ◌⊎◌, inl, inr, [], ◌∷◌, none, some, some_ne_none,
  some_inj, Bool-cases, ◌==◌, if◌then◌else◌, subst, ap, ◌<◌, ◌%◌, zero, suc, get_elem?,
}
use rskynet.Core.Handles.{
  Context, HandleStorage, registered, grab, grow, register_with, retire, find_name, register_name,
}
use rskynet.Core.Handles.Valid.{IsValid}
use rskynet.Core.Handles.Grow.{Grown, grow-Grown}
use rskynet.Core.Handles.Register.{Added, register_with_lem}
use rskynet.Core.Handles.Names.{Retired, Named, retire_lem, register_name_lem}

abbrev service : ℕ → Context ℕ
service h = record { handle = h; body = 100 + h }

-- A full table of one slot, with a name.
abbrev crowded : HandleStorage ℕ
crowded = record {
  slots = λ i. if i == 0 then some (service 1) else none;
  size = 1;
  names = ("db", 1) ∷ [];
  next = 2;
}

crowded-IsValid : IsValid crowded
unfolding grab
crowded-IsValid = record {
  room = omega arith;
  placed = λ i c e. elim (Bool-cases (i == 0)) [
    | inl here ↦
        let same : service 1 ≡ c = some_inj (rw here at e) in
        subst (λ (x : Context ℕ). (i < 1) × (x.handle % 1 ≡ i) × (x.handle < 2)) same
          (ground arith, ground arith, omega arith)
    | inr off ↦ absurd (some_ne_none (sym (rw off at e)))
  ];
  named = λ k h on. entry k h on.0 on.1;
}
  where
    entry :
        (k : String) (h : ℕ) (i : ℕ)
        → get_elem? crowded.names i ≡ some (k, h)
        → (c : Context ℕ) × (grab crowded h ≡ some c)
    entry k h zero q =
        let owner : 1 ≡ h = ap (λ (x : String × ℕ). x.1) (some_inj q) in
        (service 1, ap (grab crowded) (sym owner))
    entry k h (suc i) q = absurd (some_ne_none (sym q))

grow-Grown_example : (t : HandleStorage ℕ) × (grow crowded ≡ some t) × Grown crowded t
grow-Grown_example = grow-Grown crowded crowded-IsValid (omega arith)

register_with_lem_example :
    (h : ℕ) × (t : HandleStorage ℕ) × (register_with service crowded ≡ registered (service h) t)
    × Added crowded t service h
register_with_lem_example =
    register_with_lem service crowded crowded-IsValid (λ h. refl) (omega arith) (omega arith)

retire_lem_example :
    let (out, t) = retire crowded 1 in
    (out ≡ grab crowded 1) × (grab crowded 1 ≡ none → t ≡ crowded) × Retired crowded t 1
retire_lem_example = retire_lem crowded 1 crowded-IsValid

register_name_lem_example :
    let (done, t) = register_name crowded 1 "cache" in
    ((done ≡ true) × Named crowded t 1 "cache")
    ⊎ ((done ≡ false)
        × (t ≡ crowded)
        × ((grab crowded 1 ≡ none) ⊎ (find_name crowded "cache" ≢ none)))
register_name_lem_example = register_name_lem crowded 1 "cache" crowded-IsValid
