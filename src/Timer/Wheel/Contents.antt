-- ===== src/Timer/Wheel/Contents.antt =====
-- What the loop of `move_list` stores.
use rskynet.Base.{
  ℕ, zero, suc, ◌≤◌, ◌≡◌, refl, ap, sym, subst, ◌∙◌, ◌⊎◌, inl, inr, List, [], ◌∷◌, some, none,
  get_elem?, some_inj,
}
use rskynet.Timer.Wheel.{Wheel, TimerEvent, key, set_location, add, re_add}
use rskynet.Timer.Wheel.Inv.{Stored, bucket-set_location, time-push}
use rskynet.Timer.Wheel.Scatter.{
  Ahead, add-push, add-Stored_new, add-Stored_old, add-Stored_inv, clamp_ahead,
}

-- The loop of `move_list` stores the events that it is given, beside those that are there.
add-Stored_ahead : (w : Wheel) (e : TimerEvent) → w.time ≤ e.expire → Stored (add w e) e
add-Stored_ahead w e h = subst (Stored (add w e)) (clamp_ahead w.time e h) (add-Stored_new w e)

time-add : (w : Wheel) (e : TimerEvent) → (add w e).time ≡ w.time
time-add w e = ap (λ (x : Wheel). x.time) (add-push w e) ∙ time-push w _ _

pub re_add-Stored_old :
    (w : Wheel) (es : List TimerEvent) (x : TimerEvent) → Stored w x → Stored (re_add w es) x
unfolding re_add
re_add-Stored_old w [] x s = s
re_add-Stored_old w (e ∷ es) x (b, i, at) =
    re_add-Stored_old (add (set_location w (key e) none) e) es x (
      add-Stored_old (set_location w (key e) none) e x
        (b, i, rw (bucket-set_location w (key e) none b) at))

pub re_add-Stored_new :
    (w : Wheel) (es : List TimerEvent) (i : ℕ) (x : TimerEvent)
    → Ahead w.time es
    → get_elem? es i ≡ some x
    → Stored (re_add w es) x
unfolding re_add
re_add-Stored_new w [] i x a at = cc
re_add-Stored_new w (e ∷ es) zero x a at =
    re_add-Stored_old (add (set_location w (key e) none) e) es x (
      subst (Stored (add (set_location w (key e) none) e)) (some_inj at)
        (add-Stored_ahead (set_location w (key e) none) e a.0.0))
re_add-Stored_new w (e ∷ es) (suc i) x a at =
    re_add-Stored_new (add (set_location w (key e) none) e) es i x
      (subst (λ t. Ahead t es) (sym (time-add (set_location w (key e) none) e)) a.1) at

pub re_add-Stored_inv :
    (w : Wheel) (es : List TimerEvent) (x : TimerEvent)
    → Ahead w.time es
    → Stored (re_add w es) x
    → Stored w x ⊎ ((i : ℕ) × (get_elem? es i ≡ some x))
unfolding re_add
re_add-Stored_inv w [] x a s = inl s
re_add-Stored_inv w (e ∷ es) x a s =
    elim (re_add-Stored_inv (add u e) es x (subst (λ t. Ahead t es) (sym (time-add u e)) a.1) s) [
      | inr (i, at) ↦ inr (suc i, at)
      | inl before ↦ elim (add-Stored_inv u e x before) [
        | inr same ↦ inr (0, ap some (sym (same ∙ clamp_ahead u.time e a.0.0)))
        | inl (b, i, at) ↦ inl (b, i, rw (bucket-set_location w (key e) none b) at at)
      ]
    ]
  where
    u : Wheel
    u = set_location w (key e) none

pub time-re_add : (w : Wheel) (es : List TimerEvent) → (re_add w es).time ≡ w.time
unfolding re_add
time-re_add w [] = refl
time-re_add w (e ∷ es) =
    time-re_add (add (set_location w (key e) none) e) es ∙ time-add (set_location w (key e) none) e
