-- ===== src/Service/MessageApi/Patience.antt =====
-- A request is answered, if the queue has room now and then.
use evernode_se.Common.{
  ℕ, zero, suc, ◌+◌, ◌<◌, ◌≡◌, refl, subst, true, false, Option, none, some, List, [], ◌∷◌, ◌++◌,
  arith, leb, length, Bool-cases, inl, inr,
}
use evernode_se.Engine.Messages.{InMessagesQueue, queued, full, queue}
use evernode_se.Service.MessageApi.{
  MessageLib, Parsed, message, error, Response, status_ok, bad_message, bad_body, does_not_accept,
  still_waiting, Sent, accepted, refused, waiting, Inbox, ParseError, parse_record, send,
  after_sent, after_record, queue_records,
}
use evernode_se.Service.MessageApi.Accepted.{messages_of, Accepts, queue_records-Accepts}

abbrev pub HasRoom : {M : Type 0} → InMessagesQueue M → Type 0
HasRoom q = leb q.capacity (length q.storage) ≡ false

-- Among as many attempts in a row as the patience there is one that finds room.
abbrev pub FindsRoom : {M : Type 0} → ℕ → (ℕ → InMessagesQueue M → InMessagesQueue M) → Type 0
FindsRoom {M} patience others =
    (n : ℕ) → (i : ℕ) × (i < patience) × ((q : InMessagesQueue M) → HasRoom (others (n + i) q))

module _ (lib : MessageLib) where
  open lib use {Value, Message}

  -- The answer to the records, and all that it accepts.
  abbrev pub Completes :
      List Message × Option ParseError → List Message → Response × Inbox Message → Type 0
  Completes (ms, none) before (r, inbox) = (r ≡ status_ok) × (inbox.taken ≡ before ++ ms)
  Completes (ms, some e) before (r, inbox) = (r ≡ bad_message e) × (inbox.taken ≡ before ++ ms)

  module _ (others : ℕ → InMessagesQueue Message → InMessagesQueue Message)
      (runs : (n : ℕ) (q : InMessagesQueue Message) → (others n q).stopped ≡ false) where
    abbrev IsAccepted : Sent × Inbox Message → Type 0
    IsAccepted (accepted, inbox) = Unit
    IsAccepted (refused, inbox) = ⊥
    IsAccepted (waiting, inbox) = ⊥

    queue-full :
        (m : Message) (q : InMessagesQueue Message)
        → q.stopped ≡ false
        → leb q.capacity (length q.storage) ≡ true
        → queue m q ≡ (full m, q)
    unfolding queue
    queue-full m q r no_room = simp (r, no_room) refl

    queue-queued :
        (m : Message) (q : InMessagesQueue Message)
        → q.stopped ≡ false
        → HasRoom q
        → queue m q ≡ (queued, record q { storage = q.storage ++ m ∷ [] })
    unfolding queue
    queue-queued m q r room = simp (r, room) refl

    send-IsAccepted :
        (i fuel : ℕ) (m : Message) (inbox : Inbox Message)
        → i < fuel
        → ((q : InMessagesQueue Message) → HasRoom (others (inbox.attempts + i) q))
        → IsAccepted (send lib others fuel m inbox)
    unfolding send
    send-IsAccepted i zero m inbox h room = absurd (omega (arith, h))
    send-IsAccepted zero (suc fuel) m inbox h room =
        let now : HasRoom (others inbox.attempts inbox.message_queue) =
          subst (λ k. HasRoom (others k inbox.message_queue)) (omega arith)
            (room inbox.message_queue) in
        rw
          (queue-queued m (others inbox.attempts inbox.message_queue)
            (runs inbox.attempts inbox.message_queue) now)
          tt
    send-IsAccepted (suc i) (suc fuel) m inbox h room =
        let q = others inbox.attempts inbox.message_queue in
        let rest =
          send-IsAccepted i fuel m
            (record { message_queue = q; attempts = suc inbox.attempts; taken = inbox.taken })
            (omega (arith, h)) (λ q'. subst (λ k. HasRoom (others k q')) (omega arith) (room q')) in
        elim (Bool-cases (leb q.capacity (length q.storage))) [
          | inl no_room ↦ rw (queue-full m q (runs inbox.attempts inbox.message_queue) no_room) rest
          | inr now ↦ rw (queue-queued m q (runs inbox.attempts inbox.message_queue) now) tt
        ]

    abbrev IsAnswered : Response × Inbox Message → Type 0
    IsAnswered (status_ok, inbox) = Unit
    IsAnswered (bad_message e, inbox) = Unit
    IsAnswered (bad_body, inbox) = ⊥
    IsAnswered (does_not_accept, inbox) = ⊥
    IsAnswered (still_waiting, inbox) = ⊥

    after_sent-IsAnswered :
        (rest : Inbox Message → Response × Inbox Message) (s : Sent × Inbox Message)
        → IsAccepted s
        → ((inbox : Inbox Message) → IsAnswered (rest inbox))
        → IsAnswered (after_sent lib others rest s)
    after_sent-IsAnswered rest (accepted, inbox) h k = k inbox
    after_sent-IsAnswered rest (refused, inbox) h k = elim h [ ]
    after_sent-IsAnswered rest (waiting, inbox) h k = elim h [ ]

    module _ (patience : ℕ) (finds : FindsRoom patience others) where
      after_record-IsAnswered :
          (parsed : Option (Parsed Message)) (rest : Inbox Message → Response × Inbox Message)
          (inbox : Inbox Message)
          → ((inbox : Inbox Message) → IsAnswered (rest inbox))
          → IsAnswered (after_record lib others patience rest parsed inbox)
      after_record-IsAnswered none rest inbox k = k inbox
      after_record-IsAnswered (some (error e)) rest inbox k = tt
      after_record-IsAnswered (some (message m)) rest inbox k =
          let (i, within, room) = finds inbox.attempts in
          after_sent-IsAnswered rest (send lib others patience m inbox)
            (send-IsAccepted i patience m inbox within room) k

      queue_records-IsAnswered :
          (records : List Value) (inbox : Inbox Message)
          → IsAnswered (queue_records lib others patience records inbox)
      unfolding queue_records
      queue_records-IsAnswered [] inbox = tt
      queue_records-IsAnswered (v ∷ vs) inbox =
          after_record-IsAnswered (parse_record lib v) (queue_records lib others patience vs) inbox
            (queue_records-IsAnswered vs)

      completes :
          (ms : List Message) (e : Option ParseError) (before : List Message)
          (r : Response × Inbox Message)
          → IsAnswered r
          → Accepts lib (ms, e) before r
          → Completes (ms, e) before r
      completes ms none before (status_ok, inbox) h a = (refl, a.0)
      completes ms (some e) before (status_ok, inbox) h a = cc
      completes ms none before (bad_message e', inbox) h a = cc
      completes ms (some e) before (bad_message e', inbox) h a = (cc, a.0)
      completes ms e before (bad_body, inbox) h a = elim h [ ]
      completes ms e before (does_not_accept, inbox) h a = elim h [ ]
      completes ms e before (still_waiting, inbox) h a = elim h [ ]

      -- If the queue keeps running and, among as many attempts in a row as the patience, one finds room,
      -- each request ends within that many attempts for a message. Where all records with a key and a
      -- value parse, the answer is ok and all their messages are accepted, in order; otherwise it is the
      -- error of the first that does not parse, and the messages before it are accepted.
      pub queue_records-Completes :
          (records : List Value) (inbox : Inbox Message)
          → Completes
              (messages_of lib records)
              inbox.taken
              (queue_records lib others patience records inbox)
      queue_records-Completes records inbox =
          completes (messages_of lib records).0 (messages_of lib records).1 inbox.taken
            (queue_records lib others patience records inbox)
            (queue_records-IsAnswered records inbox)
            (queue_records-Accepts lib others patience records inbox)
