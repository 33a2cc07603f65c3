-- ===== src/Core/Service/Release.antt =====
-- `cleanup` ends, and answers every request whose notification has come.
use mathlib.Core.List.{append_assoc, append-nil}
use rskynet.Base.{
  ℕ, zero, suc, ◌≤◌, ◌≡◌, refl, sym, ap, ap₂, subst, ◌∙◌, arith, true, List, [], ◌∷◌, ◌++◌, Option,
  none, some, inl, inr, ◌⊎◌, length,
}
use rskynet.Core.Message.{Message}
use rskynet.Core.Tasks.{TaskId, requests_of}
use rskynet.Core.Mailbox.{Mailbox, running, notified, idle, release, put_message, put_ready, notify}
use rskynet.Core.Service.{
  Service, Event, cleanup_round, Arrival, puts, puts_ready, notifies, meet_all, arriving, later,
  met, Cleaned, cleaned, after, cleanup,
}
use rskynet.Core.Service.Cleanup.{
  errors_of, answerable, concat, IsHeld, errors_of-append, answerable-append, outstanding,
  cleanup_round-answers, cleanup_round-IsEmpty,
}

-- The messages and the woken tasks among what other threads do.
abbrev pub messages_of : {P : Type 0} → List (Arrival P) → List (Message P)
messages_of [] = []
messages_of (puts m ∷ xs) = m ∷ messages_of xs
messages_of (puts_ready t ∷ xs) = messages_of xs
messages_of (notifies ∷ xs) = messages_of xs

abbrev pub readies_of : {P : Type 0} → List (Arrival P) → List TaskId
readies_of [] = []
readies_of (puts m ∷ xs) = readies_of xs
readies_of (puts_ready t ∷ xs) = t ∷ readies_of xs
readies_of (notifies ∷ xs) = readies_of xs

-- Nobody notifies.
abbrev pub IsQuiet : {P : Type 0} → List (Arrival P) → Type 0
IsQuiet [] = Unit
IsQuiet (puts m ∷ xs) = IsQuiet xs
IsQuiet (puts_ready t ∷ xs) = IsQuiet xs
IsQuiet (notifies ∷ xs) = ⊥

messages_of-append :
    {P : Type 0} (xs ys : List (Arrival P))
    → messages_of (xs ++ ys) ≡ messages_of xs ++ messages_of ys
messages_of-append [] ys = refl
messages_of-append (puts m ∷ xs) ys = ap (◌∷◌ m) (messages_of-append xs ys)
messages_of-append (puts_ready t ∷ xs) ys = messages_of-append xs ys
messages_of-append (notifies ∷ xs) ys = messages_of-append xs ys

-- What a held mailbox is after the others' steps.
record Met {P : Type 0} (b : Mailbox (Message P)) (xs : List (Arrival P)) (c : Mailbox (Message P))
    : Type 0 where
  queue : c.queue ≡ b.queue ++ messages_of xs
  ready : c.ready ≡ b.ready ++ readies_of xs
  state : (IsQuiet xs × (c.state ≡ b.state)) ⊎ (c.state ≡ notified)

module _ {P : Type 0} where
  length-later : (arrivals : List (List (Arrival P))) → length (later arrivals) ≤ length arrivals
  length-later [] = omega arith
  length-later (xs ∷ xss) = omega arith

  split_off :
      (arrivals : List (List (Arrival P)))
      → (arrivals ≡ arriving arrivals ∷ later arrivals)
        ⊎ ((arrivals ≡ []) × (arriving arrivals ≡ []))
  split_off [] = inr (refl, refl)
  split_off (xs ∷ xss) = inl refl

  notify-held : (b : Mailbox (Message P)) → IsHeld b → (notify b).1 ≡ record b { state = notified }
  unfolding notify
  notify-held b (inl e) = rw e refl
  notify-held b (inr e) = rw e refl

  meet_all-Met :
      (xs : List (Arrival P)) (b : Mailbox (Message P)) → IsHeld b → Met b xs (meet_all xs b)
  unfolding put_message put_ready
  meet_all-Met [] b held = record {
    queue = sym (append-nil b.queue);
    ready = sym (append-nil b.ready);
    state = inl (tt, refl);
  }
  meet_all-Met (puts m ∷ xs) b held =
      let rest = meet_all-Met xs (put_message m b) held in
      record {
        queue = rest.queue ∙ append_assoc b.queue (m ∷ []) (messages_of xs);
        ready = rest.ready;
        state = rest.state;
      }
  meet_all-Met (puts_ready t ∷ xs) b held =
      let rest = meet_all-Met xs (put_ready t b) held in
      record {
        queue = rest.queue;
        ready = rest.ready ∙ append_assoc b.ready (t ∷ []) (readies_of xs);
        state = rest.state;
      }
  meet_all-Met (notifies ∷ xs) b held =
      let same = notify-held b held in
      let rest = meet_all-Met xs (record b { state = notified }) (inr refl) in
      let done : Met b (notifies ∷ xs) (meet_all xs (record b { state = notified })) = record {
        queue = rest.queue;
        ready = rest.ready;
        state = inr (elim rest.state [ inl (quiet, e) ↦ e | inr e ↦ e ]);
      } in
      subst (λ c. Met b (notifies ∷ xs) (meet_all xs c)) (sym same) done

module _ {F P W : Type 0} where
  -- `cleanup` of `s` ended with `c`, a released service `service`. The rounds of the others' steps are
  -- those `before` its last, the `last`, and those `unused`, after the release.
  pub record CleansTo (arrivals : List (List (Arrival P))) (s : Service F P W) (c : Cleaned F P W)
      : Type 0 where
    pub events : List (Event F W)
    pub service : Service F P W
    pub ended : c ≡ cleaned events service
    pub before : List (List (Arrival P))
    pub last : List (Arrival P)
    pub unused : List (List (Arrival P))
    pub rounds : (arrivals ≡ before ++ last ∷ unused) ⊎ ((arrivals ≡ before) × (last ≡ []))
    pub answers : errors_of events ≡ outstanding s ++ answerable (messages_of (concat before))
    pub no_task : service.tasks.slots ≡ []
    pub no_call : service.sessions.slots ≡ []
    pub no_pending : service.pending_messages ≡ none
    pub queue : service.mailbox.queue ≡ messages_of last
    pub ready : service.mailbox.ready ≡ readies_of last
    pub quiet : IsQuiet last
    pub released : service.mailbox.state ≡ idle
    pub wakes_up : (notify service.mailbox).0 ≡ true

  -- The mailbox after a round and the others' steps.
  abbrev left_by : List (List (Arrival P)) → Service F P W → Mailbox (Message P)
  left_by arrivals s = meet_all (arriving arrivals) (cleanup_round s).1.mailbox

  left_by-Met :
      (arrivals : List (List (Arrival P))) (s : Service F P W)
      → IsHeld s.mailbox
      → Met (cleanup_round s).1.mailbox (arriving arrivals) (left_by arrivals s)
  left_by-Met arrivals s held =
      let same = (cleanup_round-IsEmpty s).1 in
      meet_all-Met (arriving arrivals) (cleanup_round s).1.mailbox
        (elim held [ inl e ↦ inl (same ∙ e) | inr e ↦ inr (same ∙ e) ])

  -- The round in which nobody notifies a running mailbox is the last.
  last_round :
      (fuel : ℕ) (arrivals : List (List (Arrival P))) (s : Service F P W)
      → IsHeld s.mailbox
      → (left_by arrivals s).state ≡ running
      → IsQuiet (arriving arrivals)
      → CleansTo arrivals s (cleanup (suc fuel) arrivals s)
  unfolding cleanup release notify
  last_round fuel arrivals s held on quiet =
      let ((e1, e2, e3, e4, e5), same) = cleanup_round-IsEmpty s in
      let m = left_by-Met arrivals s held in
      record {
        events = (cleanup_round s).0;
        service = record (met arrivals (cleanup_round s).1) {
          mailbox = record (left_by arrivals s) { state = idle };
        };
        ended = rw (cleanup, release, on) refl;
        before = [];
        last = arriving arrivals;
        unused = later arrivals;
        rounds = split_off arrivals;
        answers = cleanup_round-answers s ∙ sym (append-nil (outstanding s));
        no_task = e1;
        no_call = e2;
        no_pending = e5;
        queue = m.queue ∙ ap (λ q. q ++ messages_of (arriving arrivals)) e3;
        ready = m.ready ∙ ap (λ q. q ++ readies_of (arriving arrivals)) e4;
        quiet = quiet;
        released = refl;
        wakes_up = refl;
      }

  -- The holder's service at the start of the next round.
  abbrev again_from : List (List (Arrival P)) → Service F P W → Service F P W
  again_from arrivals s = record (met arrivals (cleanup_round s).1) {
    mailbox = record (left_by arrivals s) { state = running };
  }

  again_round :
      (fuel : ℕ) (arrivals : List (List (Arrival P))) (s : Service F P W)
      → (left_by arrivals s).state ≡ notified
      → cleanup (suc fuel) arrivals s
        ≡ after (cleanup_round s).0 (cleanup fuel (later arrivals) (again_from arrivals s))
  unfolding cleanup release
  again_round fuel arrivals s on = rw (cleanup, release, on) refl

  again_from-outstanding :
      (arrivals : List (List (Arrival P))) (s : Service F P W)
      → IsHeld s.mailbox
      → outstanding (again_from arrivals s) ≡ answerable (messages_of (arriving arrivals))
  unfolding requests_of
  again_from-outstanding arrivals s held =
      let (empty, same) = cleanup_round-IsEmpty s in
      let m = left_by-Met arrivals s held in
      ap₂ (λ xs ys. xs ++ ys)
        (ap₂ (λ xs ys. xs ++ ys) (ap requests_of empty.0)
          (ap answerable (m.queue ∙ ap (λ q. q ++ messages_of (arriving arrivals)) empty.2)))
        (ap (λ o. answerable (pending_list o)) empty.4)
      ∙ append-nil (answerable (messages_of (arriving arrivals)))
    where
      pending_list : Option (List (Message P)) → List (Message P)
      pending_list o = elim o [ none ↦ [] | some ms ↦ ms ]

  continued :
      (fuel : ℕ) (arrivals : List (List (Arrival P))) (s : Service F P W)
      → IsHeld s.mailbox
      → (left_by arrivals s).state ≡ notified
      → CleansTo
          (later arrivals)
          (again_from arrivals s)
          (cleanup fuel (later arrivals) (again_from arrivals s))
      → CleansTo arrivals s (cleanup (suc fuel) arrivals s)
  continued fuel arrivals s held on r = record {
    events = (cleanup_round s).0 ++ r.events;
    service = r.service;
    ended = again_round fuel arrivals s on ∙ ap (after (cleanup_round s).0) r.ended;
    before = (grown arrivals r.before).0;
    last = r.last;
    unused = r.unused;
    rounds = grown_rounds arrivals r.before r.rounds;
    answers =
        errors_of-append (cleanup_round s).0 r.events
        ∙ ap₂ (λ xs ys. xs ++ ys) (cleanup_round-answers s)
            (r.answers
              ∙ ap (λ xs. xs ++ answerable (messages_of (concat r.before)))
                  (again_from-outstanding arrivals s held)
              ∙ (grown arrivals r.before).1);
    no_task = r.no_task;
    no_call = r.no_call;
    no_pending = r.no_pending;
    queue = r.queue;
    ready = r.ready;
    quiet = r.quiet;
    released = r.released;
    wakes_up = r.wakes_up;
  }
    where
      -- The round at hand goes before the others, if there is one.
      grown :
          (xss yss : List (List (Arrival P)))
          → (zss : List (List (Arrival P))) × (answerable (messages_of (arriving xss))
                ++ answerable (messages_of (concat yss))
              ≡ answerable (messages_of (concat zss)))
      grown [] yss = (yss, refl)
      grown (xs ∷ xss) yss = (
        xs ∷ yss,
        sym (answerable-append (messages_of xs) (messages_of (concat yss)))
            ∙ ap answerable (sym (messages_of-append xs (concat yss))),
      )

      grown_rounds :
          (xss yss : List (List (Arrival P)))
          → (later xss ≡ yss ++ r.last ∷ r.unused) ⊎ ((later xss ≡ yss) × (r.last ≡ []))
          → (xss ≡ (grown xss yss).0 ++ r.last ∷ r.unused)
            ⊎ ((xss ≡ (grown xss yss).0) × (r.last ≡ []))
      grown_rounds [] yss h = h
      grown_rounds (xs ∷ xss) yss (inl e) = inl (ap (◌∷◌ xs) e)
      grown_rounds (xs ∷ xss) yss (inr (e, none_last)) = inr (ap (◌∷◌ xs) e, none_last)

  running_cleans :
      (arrivals : List (List (Arrival P))) (fuel : ℕ) (s : Service F P W)
      → length arrivals ≤ fuel
      → s.mailbox.state ≡ running
      → CleansTo arrivals s (cleanup (suc fuel) arrivals s)
  running_cleans [] fuel s k on =
      last_round fuel [] s (inl on) ((cleanup_round-IsEmpty s).1 ∙ on) tt
  running_cleans (xs ∷ xss) zero s k on = absurd (omega arith)
  running_cleans (xs ∷ xss) (suc fuel) s k on = elim (left_by-Met (xs ∷ xss) s (inl on)).state [
    | inl (quiet, same) ↦
        last_round (suc fuel) (xs ∷ xss) s (inl on) (same ∙ (cleanup_round-IsEmpty s).1 ∙ on) quiet
    | inr told ↦
        continued (suc fuel) (xs ∷ xss) s (inl on) told
          (running_cleans xss fuel (again_from (xs ∷ xss) s) (omega arith) refl)
  ]

  -- Let the thread that holds a service destroy it, while others put messages and woken tasks into its
  -- mailbox and notify it, each step on its own, in any order over finitely many rounds. Then `cleanup` returns,
  -- after at most two rounds more than those. It sends an error for every request of a task, of the
  -- mailbox, of the pending queue and of the messages put in the rounds before its last, each once and no other.
  -- It releases the service with no task, call or pending message, and with exactly what was put
  -- in its last round in the queues; of that nothing is notified yet, and the notification to
  -- come finds the released mailbox idle and puts the service into the run queue again.
  pub cleanup_answers :
      (arrivals : List (List (Arrival P))) (s : Service F P W)
      → IsHeld s.mailbox
      → CleansTo arrivals s (cleanup (suc (suc (length arrivals))) arrivals s)
  cleanup_answers arrivals s (inl on) =
      running_cleans arrivals (suc (length arrivals)) s (omega arith) on
  cleanup_answers arrivals s (inr on) = continued (suc (length arrivals)) arrivals s (inr on) told (
      running_cleans (later arrivals) (length arrivals) (again_from arrivals s)
        (length-later arrivals) refl)
    where
      told : (left_by arrivals s).state ≡ notified
      told = elim (left_by-Met arrivals s (inr on)).state [
        | inl (quiet, same) ↦ same ∙ (cleanup_round-IsEmpty s).1 ∙ on
        | inr e ↦ e
      ]
