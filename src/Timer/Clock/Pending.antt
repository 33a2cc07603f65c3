-- ===== src/Timer/Clock/Pending.antt =====
-- What the commands that came in leave to fire: a description that does not speak of the wheel's slots.
use rskynet.Base.{
  ◌<◌, ◌≡◌, ◌≢◌, refl, sym, ap, subst, ◌∙◌, u64_mod, List, [], ◌∷◌, none, inl, inr, ◌⊎◌,
}
use rskynet.Timer.Wheel.{Wheel, TimerEvent, TimerKey, key, clamp}
use rskynet.Timer.Wheel.Inv.{Inv, Stored, time-push}
use rskynet.Timer.Wheel.Scatter.{
  add-Inv, add-push, key-clamp, add-Stored_new, add-Stored_old, add-Stored_inv,
}
use rskynet.Timer.Wheel.Cancel.{cancel-Cancelled}
use rskynet.Timer.Clock.{TimerCommand, arm, cancel_key, apply_command, drain}

-- No command cancels the key.
abbrev pub Uncancelled : List TimerCommand → TimerKey → Type 0
Uncancelled [] k = Unit {0}
Uncancelled (arm e ∷ cs) k = Uncancelled cs k
Uncancelled (cancel_key j ∷ cs) k = (k ≢ j) × Uncancelled cs k

-- A command arms the event, and none behind it cancels its key.
abbrev pub Armed : List TimerCommand → TimerEvent → Type 0
Armed [] e = ⊥
Armed (arm a ∷ cs) e = ((a ≡ e) × Uncancelled cs (key e)) ⊎ Armed cs e
Armed (cancel_key k ∷ cs) e = Armed cs e

-- An event was stored and is not cancelled, or it is armed and not cancelled later; an armed event
-- whose tick is past comes due at the wheel's tick.
abbrev pub IsPending : Wheel → List TimerCommand → TimerEvent → Type 0
IsPending w cs e =
    (Stored w e × Uncancelled cs (key e)) ⊎ ((a : TimerEvent) × Armed cs a × (e ≡ clamp w.time a))

-- A command meets the wheel: a timer is armed under a key that has none.
abbrev pub CommandFits : Wheel → TimerCommand → Type 0
CommandFits w (arm e) = (w.locations (key e) ≡ none) × (e.expire < u64_mod)
CommandFits w (cancel_key k) = Unit {0}

abbrev pub CommandsFit : Wheel → List TimerCommand → Type 0
CommandsFit w [] = Unit {0}
CommandsFit w (c ∷ cs) = CommandFits w c × CommandsFit (apply_command w c) cs

pub apply_command-Inv :
    (w : Wheel) (c : TimerCommand) → Inv w → CommandFits w c → Inv (apply_command w c)
apply_command-Inv w (arm e) v fits = add-Inv w e v fits.0 fits.1
apply_command-Inv w (cancel_key k) v fits = (cancel-Cancelled w k v).inv

pub time-apply_command : (w : Wheel) (c : TimerCommand) → Inv w → (apply_command w c).time ≡ w.time
time-apply_command w (arm e) v = ap (λ (x : Wheel). x.time) (add-push w e) ∙ time-push w _ _
time-apply_command w (cancel_key k) v = (cancel-Cancelled w k v).same_time

-- The first command and the others.
IsPending-back :
    (w : Wheel) (c : TimerCommand) (cs : List TimerCommand) (e : TimerEvent)
    → Inv w
    → IsPending (apply_command w c) cs e
    → IsPending w (c ∷ cs) e
IsPending-back w (arm a) cs e v (inl (s, kept)) = elim (add-Stored_inv w a e s) [
  | inl old ↦ inl (old, kept)
  | inr new ↦
      inr (a, inl (refl, subst (Uncancelled cs) (ap key new ∙ key-clamp w.time a) kept), new)
]
IsPending-back w (arm a) cs e v (inr (b, armed, is_b)) =
    inr (b, inr armed, is_b ∙ ap (λ t. clamp t b) (time-apply_command w (arm a) v))
IsPending-back w (cancel_key k) cs e v (inl (s, kept)) =
    let (old, ne) = (cancel-Cancelled w k v).adds_none e s in inl (old, (ne, kept))
IsPending-back w (cancel_key k) cs e v (inr (b, armed, is_b)) =
    inr (b, armed, is_b ∙ ap (λ t. clamp t b) (time-apply_command w (cancel_key k) v))

IsPending-on :
    (w : Wheel) (c : TimerCommand) (cs : List TimerCommand) (e : TimerEvent)
    → Inv w
    → IsPending w (c ∷ cs) e
    → IsPending (apply_command w c) cs e
IsPending-on w (arm a) cs e v (inl (s, kept)) = inl (add-Stored_old w a e s, kept)
IsPending-on w (arm a) cs e v (inr (b, inl (same, kept), is_b)) =
    let is_a : e ≡ clamp w.time a = is_b ∙ ap (clamp w.time) (sym same) in
    inl (
      subst (Stored (apply_command w (arm a))) (sym is_a) (add-Stored_new w a),
      subst (Uncancelled cs) (sym (ap key is_b ∙ key-clamp w.time b)) kept,
    )
IsPending-on w (arm a) cs e v (inr (b, inr armed, is_b)) =
    inr (b, armed, is_b ∙ ap (λ t. clamp t b) (sym (time-apply_command w (arm a) v)))
IsPending-on w (cancel_key k) cs e v (inl (s, (ne, kept))) =
    inl ((cancel-Cancelled w k v).keeps e s ne, kept)
IsPending-on w (cancel_key k) cs e v (inr (b, armed, is_b)) =
    inr (b, armed, is_b ∙ ap (λ t. clamp t b) (sym (time-apply_command w (cancel_key k) v)))

-- Draining the commands leaves exactly the pending events on the wheel.
pub drain-IsPending :
    (w : Wheel) (cs : List TimerCommand) (e : TimerEvent)
    → Inv w
    → CommandsFit w cs
    → (Stored (drain w cs) e → IsPending w cs e) × (IsPending w cs e → Stored (drain w cs) e)
unfolding drain
drain-IsPending w [] e v fits =
    ((λ s. inl (s, tt)), λ p. elim p [ inl (s, kept) ↦ s | inr (a, armed, same) ↦ absurd armed ])
drain-IsPending w (c ∷ cs) e v fits =
    let (to, from) =
      drain-IsPending (apply_command w c) cs e (apply_command-Inv w c v fits.0) fits.1 in
    ((λ s. IsPending-back w c cs e v (to s)), λ p. from (IsPending-on w c cs e v p))
