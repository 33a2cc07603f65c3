-- ===== src/Core/Service/Cleanup.antt =====
-- What a round of `cleanup` answers and leaves.
use mathlib.Core.List.{append-nil}
use rskynet.Base.{
  ℕ, ◌≡◌, refl, ap, ap₂, ◌∙◌, Bool-cases, List, [], ◌∷◌, ◌++◌, map, none, inl, inr, ◌⊎◌,
  if◌then◌else◌,
}
use rskynet.Core.Message.{Message}
use rskynet.Core.Tasks.{requests_of, take_requests, without_requests, drain_tasks, futures_of}
use rskynet.Core.Mailbox.{Mailbox, running, notified, drain}
use rskynet.Core.Session.{clear}
use rskynet.Core.Service.{
  Service, Event, wakes, schedules, sends_error, drops, logs_overload, panics, is_answerable,
  fail_inflight, fail_messages, pending_of, error_to, dropped, cleanup_round, finish_init,
  is_initializing,
}

-- The answers among events: to which service, and for which of its sessions.
abbrev pub errors_of : {F W : Type 0} → List (Event F W) → List (ℕ × ℕ)
errors_of [] = []
errors_of (sends_error to session ∷ es) = (to, session) ∷ errors_of es
errors_of (wakes w ∷ es) = errors_of es
errors_of (schedules ∷ es) = errors_of es
errors_of (drops f ∷ es) = errors_of es
errors_of (logs_overload n ∷ es) = errors_of es
errors_of (panics ∷ es) = errors_of es

-- The requests among messages.
abbrev pub answerable : {P : Type 0} → List (Message P) → List (ℕ × ℕ)
answerable [] = []
answerable (m ∷ ms) =
    if is_answerable m then (m.source, m.session) ∷ answerable ms else answerable ms

abbrev pub concat : {A : Type 0} → List (List A) → List A
concat [] = []
concat (xs ∷ xss) = xs ++ concat xss

abbrev pub IsHeld : {M : Type 0} → Mailbox M → Type 0
IsHeld b = (b.state ≡ running) ⊎ (b.state ≡ notified)

pub errors_of-append :
    {F W : Type 0} (xs ys : List (Event F W)) → errors_of (xs ++ ys) ≡ errors_of xs ++ errors_of ys
errors_of-append [] ys = refl
errors_of-append (sends_error to session ∷ xs) ys = ap (◌∷◌ (to, session)) (errors_of-append xs ys)
errors_of-append (wakes w ∷ xs) ys = errors_of-append xs ys
errors_of-append (schedules ∷ xs) ys = errors_of-append xs ys
errors_of-append (drops f ∷ xs) ys = errors_of-append xs ys
errors_of-append (logs_overload n ∷ xs) ys = errors_of-append xs ys
errors_of-append (panics ∷ xs) ys = errors_of-append xs ys

pub answerable-append :
    {P : Type 0} (xs ys : List (Message P)) → answerable (xs ++ ys) ≡ answerable xs ++ answerable ys
answerable-append [] ys = refl
answerable-append (m ∷ xs) ys = elim (Bool-cases (is_answerable m)) [
  | inl on ↦ rw on (ap (◌∷◌ (m.source, m.session)) (answerable-append xs ys))
  | inr off ↦ rw off (answerable-append xs ys)
]

errors_of_requests :
    (F W : Type 0) (rs : List (ℕ × ℕ)) → errors_of (map (error_to {F = F} {W = W}) rs) ≡ rs
errors_of_requests F W [] = refl
errors_of_requests F W (r ∷ rs) = ap (◌∷◌ r) (errors_of_requests F W rs)

errors_of_drops : (F W : Type 0) (fs : List F) → errors_of (map (dropped {W = W}) fs) ≡ []
errors_of_drops F W [] = refl
errors_of_drops F W (f ∷ fs) = errors_of_drops F W fs

errors_of-fail_messages :
    (F W : Type 0) {P : Type 0} (ms : List (Message P))
    → errors_of (fail_messages {F = F} {P = P} {W = W} ms) ≡ answerable ms
unfolding fail_messages
errors_of-fail_messages F W [] = refl
errors_of-fail_messages F W (m ∷ ms) = elim (Bool-cases (is_answerable m)) [
  | inl on ↦ rw on (ap (◌∷◌ (m.source, m.session)) (errors_of-fail_messages F W ms))
  | inr off ↦ rw off (errors_of-fail_messages F W ms)
]

module _ {F P W : Type 0} where
  -- Who waits for an answer of the service.
  abbrev pub outstanding : Service F P W → List (ℕ × ℕ)
  outstanding s =
      requests_of s.tasks.slots ++ answerable s.mailbox.queue ++ answerable (pending_of s)

  -- Nothing is left.
  abbrev pub IsEmpty : Service F P W → Type 0
  IsEmpty s =
      (s.tasks.slots ≡ [])
      × (s.sessions.slots ≡ [])
      × (s.mailbox.queue ≡ [])
      × (s.mailbox.ready ≡ [])
      × (s.pending_messages ≡ none)

  pub cleanup_round-answers : (s : Service F P W) → errors_of (cleanup_round s).0 ≡ outstanding s
  unfolding cleanup_round fail_inflight take_requests drain_tasks drain
  cleanup_round-answers s =
      errors_of-append (early ++ fail_messages s.mailbox.queue) (fail_messages (pending_of s))
      ∙ ap₂ (λ xs ys. xs ++ ys)
          (errors_of-append early (fail_messages s.mailbox.queue)
            ∙ ap₂ (λ xs ys. xs ++ ys) first (errors_of-fail_messages F W s.mailbox.queue))
          (errors_of-fail_messages F W (pending_of s))
    where
      requests : List (ℕ × ℕ)
      requests = requests_of s.tasks.slots

      futures : List F
      futures = futures_of (without_requests s.tasks.slots)

      early : List (Event F W)
      early = map error_to requests ++ map dropped futures

      first : errors_of early ≡ requests
      first =
          errors_of-append (map error_to requests) (map dropped futures)
          ∙ ap₂ (λ xs ys. xs ++ ys) (errors_of_requests F W requests) (errors_of_drops F W futures)
          ∙ append-nil requests

  pub cleanup_round-IsEmpty :
      (s : Service F P W)
      → IsEmpty (cleanup_round s).1 × ((cleanup_round s).1.mailbox.state ≡ s.mailbox.state)
  unfolding cleanup_round fail_inflight take_requests drain_tasks drain clear finish_init
  cleanup_round-IsEmpty s = elim (Bool-cases (is_initializing s.lifecycle)) [
    | inl on ↦ rw on ((refl, refl, refl, refl, refl), refl)
    | inr off ↦ rw off ((refl, refl, refl, refl, refl), refl)
  ]
