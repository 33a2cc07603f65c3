-- ===== src/Core/Service/Turn.antt =====
-- How long a worker stays with a service while others wait.
use rskynet.Base.{
  ℕ, zero, suc, ◌+◌, ◌≤◌, ◌<◌, ◌≡◌, ◌≢◌, refl, sym, ap, ◌∙◌, arith, Bool, true, false,
  true_ne_false, Bool-cases, List, [], Option, none, some, leb, if◌then◌else◌, inl, inr,
}
use rskynet.Core.Message.{Message}
use rskynet.Core.Mailbox.{message, Taken, taken, nothing, panicked, out_of_fuel, take_work}
use rskynet.Core.Service.{Service, Event}
use rskynet.Core.Service.Run.{
  UserCode, Ran, ran_idle, ran_yielded, ran_dead, ran_panicked, ran_on, Next, ends, goes_on,
  yield_interval, after_pending, after_work, next_pending, run_work, run_taken, run_round,
  mailbox_round, unless_ended, run_loop, run_service,
}

-- A round that goes on has counted one more piece of work, and the count is still below the interval.
abbrev IsShort : ℕ → Next → Type 0
IsShort done (ends r) = r ≢ ran_on
IsShort done (goes_on n) = (n ≡ suc done) × (n < yield_interval)

is_run_on : Ran → Bool
is_run_on ran_on = true
is_run_on ran_idle = false
is_run_on ran_yielded = false
is_run_on ran_dead = false
is_run_on ran_panicked = false

ended : (r : Ran) → is_run_on r ≡ false → r ≢ ran_on
unfolding is_run_on
ended r e same = true_ne_false (sym (ap is_run_on same) ∙ e)

module _ {F P W : Type 0} where
  after_pending-IsShort :
      (done : ℕ) (s : Service F P W) → IsShort done (after_pending (λ t. true) true (done + 1) s)
  unfolding is_run_on
  after_pending-IsShort done s = elim (Bool-cases s.dead) [
    | inl dead ↦ rw dead (ended ran_dead refl)
    | inr alive ↦ elim (Bool-cases (leb yield_interval (done + 1))) [
      | inl long ↦ rw (alive, long) (ended ran_yielded refl)
      | inr short ↦ rw (alive, short) (omega arith, (ground arith))
    ]
  ]

  after_work-IsShort :
      (done : ℕ) (s : Service F P W) → IsShort done (after_work (λ t. true) true (done + 1) s)
  unfolding is_run_on
  after_work-IsShort done s = elim (Bool-cases s.dead) [
    | inl dead ↦ rw dead (ended ran_dead refl)
    | inr alive ↦ elim (Bool-cases (leb yield_interval (done + 1))) [
      | inl long ↦ rw (alive, long) (ended ran_yielded refl)
      | inr short ↦ rw (alive, short) (omega arith, (ground arith))
    ]
  ]

module _ {F P W : Type 0} (code : UserCode F P W) where
  mailbox_round-IsShort :
      (done : ℕ) (s : Service F P W) (w : Taken (Message P))
      → IsShort done (mailbox_round code (λ t. true) true done s w).1
  unfolding is_run_on
  mailbox_round-IsShort done s (nothing b) = ended ran_idle refl
  mailbox_round-IsShort done s panicked = ended ran_panicked refl
  mailbox_round-IsShort done s out_of_fuel = ended ran_panicked refl
  mailbox_round-IsShort done s (taken w b) =
      after_work-IsShort done (run_taken code w (record s { mailbox = b })).1

  run_round-IsShort :
      (done : ℕ) (x : Option (Message P) × Service F P W)
      → IsShort done (run_round code (λ t. true) true done x).1
  run_round-IsShort done (some m, s) = after_pending-IsShort done (run_work code (message m) s).1
  run_round-IsShort done (none, s) = mailbox_round-IsShort done s (take_work s.mailbox)

  unless_ended-ends :
      (done fuel : ℕ) (loop : ℕ → Service F P W → List (Event F W) × Ran × Service F P W)
      → ((n : ℕ) (t : Service F P W)
          → n < yield_interval
          → yield_interval ≤ fuel + n
          → (loop n t).1 ≢ ran_on)
      → (x : List (Event F W) × Next × Service F P W) → yield_interval ≤ suc fuel + done
      → IsShort done x.1
      → (unless_ended code x loop).1 ≢ ran_on
  unless_ended-ends done fuel loop rec (es, ends r, t) enough short = short
  unless_ended-ends done fuel loop rec (es, goes_on n, t) enough (up, lt) = rec n t lt (omega arith)

  run_loop-ends :
      (fuel done : ℕ) (s : Service F P W)
      → done < yield_interval
      → yield_interval ≤ fuel + done
      → (run_loop code fuel (λ t. true) true done s).1 ≢ ran_on
  unfolding run_loop
  run_loop-ends zero done s lt enough = absurd (omega arith)
  run_loop-ends (suc fuel) done s lt enough =
      unless_ended-ends done fuel (λ n t. run_loop code fuel (λ u. true) true n t)
        (λ n t. run_loop-ends fuel n t) (run_round code (λ u. true) true done (next_pending code s))
        enough (run_round-IsShort done (next_pending code s))

  -- While other services wait for the worker, `run_service` ends within 64 rounds, whatever the code
  -- of the service does: also if it sends itself messages, or a task wakes itself in each poll.
  pub run_service_yields :
      (s : Service F P W) → (run_service code yield_interval (λ t. true) true s).1 ≢ ran_on
  unfolding run_service is_run_on
  run_service_yields s = go s.dead
    where
      go :
          (dead : Bool)
          → ◌≢◌ {A = Ran}
              (if dead
                then ([], ran_dead, s)
                else run_loop code yield_interval (λ t. true) true 0 s).1
              ran_on
      go true = ended ran_dead refl
      go false = run_loop-ends yield_interval 0 s (omega arith) (omega arith)
