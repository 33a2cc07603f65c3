-- ===== src/Core/Service/Examples.antt =====
-- Tests of a service, and the theorems on concrete ones.
use rskynet.Base.{ℕ, suc, ◌≡◌, ◌≢◌, refl, true, false, inl, List, [], ◌∷◌, none, some, length}
use rskynet.Core.Message.{Message, is_reply, needs_reply}
use rskynet.Core.Error.{call_failed, err}
use rskynet.Core.Session.{waiting, done, complete}
use rskynet.Core.Tasks.{TaskSlot, TaskSet, insert_task}
use rskynet.Core.Mailbox.{running}
use rskynet.Core.Service.{
  Service, wakes, initializing, running_service, started, finish_init, finished, cleanup, Arrival,
  puts, notifies,
}
use rskynet.Core.Service.Run.{UserCode, ran_on, yield_interval, handle_message, run_service}
use rskynet.Core.Service.Cleanup.{outstanding}
use rskynet.Core.Service.Release.{CleansTo, cleanup_answers}
use rskynet.Core.Service.Startup.{handle_all, take_all, pending_in_order}
use rskynet.Core.Service.Turn.{run_service_yields}

-- Futures, payloads and wakers are numbers. A message becomes the future of its payload, and each
-- future is finished by its first poll.
abbrev simple_code : UserCode ℕ ℕ ℕ
simple_code = record {
  dispatch = λ m s. ([], m.payload, s);
  poll = λ f s. ([], finished, s);
  vacant = λ m. length m;
}

abbrev request : ℕ → ℕ → Message ℕ
request source session = record { source = source; session = session; mtype = 7; payload = 3 }

-- A service with one task that works on a request, one request in the mailbox, and a call that waits.
abbrev busy : Service ℕ ℕ ℕ
busy = record {
  handle = 8;
  mailbox = record {
    queue = request 5 2 ∷ request 6 0 ∷ [];
    ready = [];
    len = 2;
    state = running;
    overload = 0;
    overload_threshold = 1024;
    ready_streak = 0;
  };
  sessions = record { next = 4; slots = (4, waiting (some 9)) ∷ []; active = 1 };
  tasks = record {
    slots =
        (0, record { future = some 1; generation = 1; request = some (7, 11); source = 7 }) ∷ [];
    next_generation = 1;
    count = 1;
    signals = λ g. false;
  };
  lifecycle = running_service;
  init = some started;
  init_self_exit = false;
  pending_messages = none;
  dead = true;
  message_count = 2;
}

busy_has_two_requests : outstanding busy ≡ (7, 11) ∷ (5, 2) ∷ []
unfolding needs_reply is_reply rskynet.Core.Tasks.requests_of
busy_has_two_requests = refl

error_reply : Message ℕ
error_reply = record { source = 5; session = 4; mtype = 6; payload = 0 }

failed_call_is_reported : handle_message simple_code error_reply busy ≡ (
  wakes 9 ∷ [],
  record busy {
    message_count = 3;
    sessions = record busy.sessions { slots = (4, done (err (call_failed 5))) ∷ [] };
  },
)
unfolding error_reply handle_message is_reply complete
failed_call_is_reported = refl

-- While `busy` is destroyed, a request comes and is notified, and another is put but not notified.
abbrev others : List (List (Arrival ℕ))
others = (puts (request 9 1) ∷ notifies ∷ []) ∷ (puts (request 9 2) ∷ []) ∷ []

cleanup_answers_example : CleansTo others busy (cleanup (suc (suc (length others))) others busy)
cleanup_answers_example = cleanup_answers others busy (inl refl)

abbrev starting : Service ℕ ℕ ℕ
starting = record busy {
  lifecycle = initializing;
  init = none;
  pending_messages = some [];
  dead = false;
}

pending_in_order_example :
    (handle_all simple_code (request 5 2 ∷ request 6 0 ∷ []) starting
      ≡ ([], record starting { pending_messages = some (request 5 2 ∷ request 6 0 ∷ []) }))
    × (take_all 3
          (finish_init started (handle_all simple_code (request 5 2 ∷ request 6 0 ∷ []) starting).1)
        ≡ (
          request 5 2 ∷ request 6 0 ∷ [],
          record (finish_init started
              (handle_all simple_code (request 5 2 ∷ request 6 0 ∷ []) starting).1) {
                pending_messages = none;
              },
        ))
unfolding is_reply
pending_in_order_example =
    pending_in_order simple_code (request 5 2 ∷ request 6 0 ∷ []) [] starting refl refl
      (refl, (refl, tt))

run_service_yields_example :
    (run_service simple_code yield_interval (λ t. true) true starting).1 ≢ ran_on
run_service_yields_example = run_service_yields simple_code starting
