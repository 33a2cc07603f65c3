-- ===== src/Core/Service/Startup.antt =====
-- What arrives while a service starts is dispatched later, in order.
use mathlib.Core.List.{append_assoc, append-nil}
use rskynet.Base.{
  ℕ, zero, suc, ◌≡◌, refl, sym, ap, ◌∙◌, arith, Bool, true, false, not, ◌&&◌, ◌==◌, List, [], ◌∷◌,
  ◌++◌, none, some, length,
}
use rskynet.Core.Message.{Message, is_reply}
use rskynet.Core.Service.{Service, Event, is_running, take_pending, finish_init, started}
use rskynet.Core.Service.Run.{UserCode, handle_message}

-- Whether a message is no reply to a call of the service.
abbrev pub is_news : {P : Type 0} → Message P → Bool
is_news m = not (is_reply m.mtype && not (m.session == 0))

abbrev pub AllNews : {P : Type 0} → List (Message P) → Type 0
AllNews [] = Unit
AllNews (m ∷ ms) = (is_news m ≡ true) × AllNews ms

not-true : (b : Bool) → not b ≡ true → b ≡ false
not-true b e = ground arith

module _ {F P W : Type 0} where
  -- The messages that `take_pending` gives, one after the other, and what it leaves at the end.
  abbrev pub take_all : ℕ → Service F P W → List (Message P) × Service F P W
  take_all zero s = ([], s)
  take_all (suc n) s =
      let (got, t) = take_pending s in
      let (rest, u) = take_all n t in elim got [ none ↦ ([], t) | some m ↦ (m ∷ rest, u) ]

  take_all-order :
      (ms : List (Message P)) (s : Service F P W)
      → s.pending_messages ≡ some ms
      → take_all (suc (length ms)) s ≡ (ms, record s { pending_messages = none })
  unfolding take_pending
  take_all-order [] s e = rw e refl
  take_all-order (m ∷ ms) s e =
      let rest : take_all (suc (length ms)) (record s { pending_messages = some ms })
          ≡ (ms, record s { pending_messages = none }) =
        take_all-order ms (record s { pending_messages = some ms }) refl in
      rw (take_pending, e) (ap (λ (x : List (Message P) × Service F P W). (m ∷ x.0, x.1)) rest)

module _ {F P W : Type 0} (code : UserCode F P W) where
  abbrev pub handle_all : List (Message P) → Service F P W → List (Event F W) × Service F P W
  handle_all [] s = ([], s)
  handle_all (m ∷ ms) s =
      let (es, t) = handle_message code m s in let (fs, u) = handle_all ms t in (es ++ fs, u)

  handle_message-waits :
      (m : Message P) (ms : List (Message P)) (s : Service F P W)
      → is_running s.lifecycle ≡ false
      → s.pending_messages ≡ some ms
      → is_news m ≡ true
      → handle_message code m s ≡ ([], record s { pending_messages = some (ms ++ m ∷ []) })
  unfolding handle_message
  handle_message-waits m ms s off e new =
      let passed : (is_reply m.mtype && not (m.session == 0)) ≡ false = not-true _ new in
      rw (handle_message, passed, off, e) refl

  handle_all-waits :
      (ns ms : List (Message P)) (s : Service F P W)
      → is_running s.lifecycle ≡ false
      → s.pending_messages ≡ some ms
      → AllNews ns
      → handle_all ns s ≡ ([], record s { pending_messages = some (ms ++ ns) })
  handle_all-waits [] ms s off e new =
      ap (λ o. ([], record s { pending_messages = o })) (e ∙ ap some (sym (append-nil ms)))
  handle_all-waits (n ∷ ns) ms s off e (new, more) =
      let one : handle_message code n s
          ≡ ([], record s { pending_messages = some (ms ++ n ∷ []) }) =
        handle_message-waits n ms s off e new in
      let rest : handle_all ns (record s { pending_messages = some (ms ++ n ∷ []) })
          ≡ ([], record s { pending_messages = some (ms ++ n ∷ [] ++ ns) }) =
        handle_all-waits ns (ms ++ n ∷ []) (record s { pending_messages = some (ms ++ n ∷ []) }) off
          refl more in
      ap
        (λ (x : List (Event F W) × Service F P W).
          (x.0 ++ (handle_all ns x.1).0, (handle_all ns x.1).1))
        one
      ∙ ap (λ (x : List (Event F W) × Service F P W). ([] ++ x.0, x.1)) rest
      ∙ ap (λ q. ([], record s { pending_messages = some q })) (append_assoc ms (n ∷ []) ns)

  -- Messages that are handled while a service is not running yet, replies to its calls apart, start no
  -- task and change nothing but the pending queue; and once `finish_init` lets the service run,
  -- `take_pending` gives those that waited before and then these, each once and in order, and none then.
  pub pending_in_order :
      (ns ms : List (Message P)) (s : Service F P W)
      → is_running s.lifecycle ≡ false
      → s.pending_messages ≡ some ms
      → AllNews ns
      → (handle_all ns s ≡ ([], record s { pending_messages = some (ms ++ ns) }))
        × (take_all (suc (length (ms ++ ns))) (finish_init started (handle_all ns s).1) ≡ (
          ms ++ ns,
          record (finish_init started (handle_all ns s).1) { pending_messages = none },
        ))
  unfolding finish_init
  pending_in_order ns ms s off e new =
      let waits : handle_all ns s ≡ ([], record s { pending_messages = some (ms ++ ns) }) =
        handle_all-waits ns ms s off e new in
      (
        waits,
        take_all-order (ms ++ ns) (finish_init started (handle_all ns s).1)
            (ap (λ (x : List (Event F W) × Service F P W). x.1.pending_messages) waits),
      )
