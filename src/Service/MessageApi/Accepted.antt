-- ===== src/Service/MessageApi/Accepted.antt =====
-- Which messages a request puts into the queue, by its answer.
use evernode_se.Common.{
  ℕ, zero, suc, ◌≡◌, refl, sym, ap, ◌∙◌, subst, Bool-cases, inl, inr, leb, length, Option, none,
  some, List, [], ◌∷◌, ◌++◌,
}
use evernode_se.Engine.Messages.{InMessagesQueue, QueueResult, queued, not_accepting, full, queue}
use evernode_se.Service.MessageApi.{
  MessageLib, Parsed, message, error, Response, status_ok, bad_message, bad_body, does_not_accept,
  still_waiting, Sent, accepted, refused, waiting, Inbox, ParseError, parse_record, after_attempt,
  send, after_sent, after_record, queue_records,
}
use mathlib.Core.List.{append_assoc, append-nil}

module _ (lib : MessageLib) where
  open lib use {Value, Message}

  -- The messages of the records up to the first that cannot be parsed, and its error.
  abbrev add :
      Option (Parsed Message) → List Message × Option ParseError → List Message × Option ParseError
  add none rest = rest
  add (some (error e)) rest = ([], some e)
  add (some (message m)) (ms, e) = (m ∷ ms, e)

  abbrev pub messages_of : List Value → List Message × Option ParseError
  messages_of [] = ([], none)
  messages_of (v ∷ vs) = add (parse_record lib v) (messages_of vs)

  -- What the request accepts, from what it has accepted before and the messages of its records.
  abbrev pub Accepts :
      List Message × Option ParseError → List Message → Response × Inbox Message → Type 0
  Accepts (ms, e) before (status_ok, inbox) = (inbox.taken ≡ before ++ ms) × (e ≡ none)
  Accepts (ms, e) before (bad_message e', inbox) = (inbox.taken ≡ before ++ ms) × (e ≡ some e')
  Accepts (ms, e) before (bad_body, inbox) = ⊥
  Accepts (ms, e) before (does_not_accept, inbox) =
      (sent rest : List Message) × (m : Message) × (ms ≡ sent ++ m ∷ rest)
      × (inbox.taken ≡ before ++ sent)
  Accepts (ms, e) before (still_waiting, inbox) =
      (sent rest : List Message) × (m : Message) × (ms ≡ sent ++ m ∷ rest)
      × (inbox.taken ≡ before ++ sent)

  module _ (others : ℕ → InMessagesQueue Message → InMessagesQueue Message) where
    abbrev IsSent : Message → List Message → Sent × Inbox Message → Type 0
    IsSent m before (accepted, inbox) = inbox.taken ≡ before ++ m ∷ []
    IsSent m before (refused, inbox) = inbox.taken ≡ before
    IsSent m before (waiting, inbox) = inbox.taken ≡ before

    -- A full queue gives the message back as it is.
    abbrev GivesBack : Message → QueueResult Message × InMessagesQueue Message → Type 0
    GivesBack m (queued, q) = Unit
    GivesBack m (not_accepting, q) = Unit
    GivesBack m (full back, q) = back ≡ m

    queue-GivesBack : (m : Message) (q : InMessagesQueue Message) → GivesBack m (queue m q)
    unfolding queue
    queue-GivesBack m q = elim (Bool-cases q.stopped) [
      | inl stopped ↦ rw stopped tt
      | inr runs ↦ rw runs (elim (Bool-cases (leb q.capacity (length q.storage))) [
        | inl no_room ↦ rw no_room refl
        | inr room ↦ rw room tt
      ])
    ]

    after_attempt-IsSent :
        (rest : Message → Inbox Message → Sent × Inbox Message) (m : Message) (n : ℕ)
        (taken : List Message) (r : QueueResult Message × InMessagesQueue Message)
        → GivesBack m r
        → ((inbox : Inbox Message) → IsSent m inbox.taken (rest m inbox))
        → IsSent m taken (after_attempt lib others rest m n taken r)
    after_attempt-IsSent rest m n taken (queued, q) back h = refl
    after_attempt-IsSent rest m n taken (not_accepting, q) back h = refl
    after_attempt-IsSent rest m n taken (full b, q) back h =
        rw back (h (record { message_queue = q; attempts = suc n; taken = taken }))

    send-IsSent :
        (fuel : ℕ) (m : Message) (inbox : Inbox Message)
        → IsSent m inbox.taken (send lib others fuel m inbox)
    unfolding send
    send-IsSent zero m inbox = refl
    send-IsSent (suc fuel) m inbox =
        let rest = send-IsSent fuel m in
        after_attempt-IsSent (send lib others fuel) m inbox.attempts inbox.taken
          (queue m (others inbox.attempts inbox.message_queue))
          (queue-GivesBack m (others inbox.attempts inbox.message_queue)) rest

    -- One message more before the others.
    add-Accepts :
        (m : Message) (ms : List Message) (e : Option ParseError) (before : List Message)
        (r : Response × Inbox Message)
        → Accepts (ms, e) (before ++ m ∷ []) r
        → Accepts (m ∷ ms, e) before r
    add-Accepts m ms e before (status_ok, inbox) (taken, no_error) =
        (taken ∙ append_assoc before (m ∷ []) ms, no_error)
    add-Accepts m ms e before (bad_message e', inbox) (taken, same) =
        (taken ∙ append_assoc before (m ∷ []) ms, same)
    add-Accepts m ms e before (bad_body, inbox) h = elim h [ ]
    add-Accepts m ms e before (does_not_accept, inbox) (sent, rest, next, split, taken) =
        (m ∷ sent, rest, next, ap (λ l. m ∷ l) split, taken ∙ append_assoc before (m ∷ []) sent)
    add-Accepts m ms e before (still_waiting, inbox) (sent, rest, next, split, taken) =
        (m ∷ sent, rest, next, ap (λ l. m ∷ l) split, taken ∙ append_assoc before (m ∷ []) sent)

    after_sent-Accepts :
        (m : Message) (ms : List Message) (e : Option ParseError) (before : List Message)
        (rest : Inbox Message → Response × Inbox Message) (s : Sent × Inbox Message)
        → IsSent m before s
        → ((inbox : Inbox Message) → Accepts (ms, e) inbox.taken (rest inbox))
        → Accepts (m ∷ ms, e) before (after_sent lib others rest s)
    after_sent-Accepts m ms e before rest (accepted, inbox) taken h =
        add-Accepts m ms e before (rest inbox)
          (subst (λ l. Accepts (ms, e) l (rest inbox)) taken (h inbox))
    after_sent-Accepts m ms e before rest (refused, inbox) taken h =
        ([], ms, m, refl, taken ∙ sym (append-nil before))
    after_sent-Accepts m ms e before rest (waiting, inbox) taken h =
        ([], ms, m, refl, taken ∙ sym (append-nil before))

    after_record-Accepts :
        (fuel : ℕ) (parsed : Option (Parsed Message)) (more : List Message × Option ParseError)
        (rest : Inbox Message → Response × Inbox Message) (inbox : Inbox Message)
        → ((inbox : Inbox Message) → Accepts more inbox.taken (rest inbox))
        → Accepts (add parsed more) inbox.taken (after_record lib others fuel rest parsed inbox)
    after_record-Accepts fuel none more rest inbox h = h inbox
    after_record-Accepts fuel (some (error e)) more rest inbox h =
        (sym (append-nil inbox.taken), refl)
    after_record-Accepts fuel (some (message m)) (ms, e) rest inbox h =
        after_sent-Accepts m ms e inbox.taken rest (send lib others fuel m inbox)
          (send-IsSent fuel m inbox) h

    -- The messages that a request puts into the queue, in order. If the answer is ok, they are those of
    -- all records that have a key and a value. If a record cannot be parsed, they are those before this
    -- record. If the node does not accept messages, or while the request still waits for room, they are
    -- a beginning of these.
    pub queue_records-Accepts :
        (fuel : ℕ) (records : List Value) (inbox : Inbox Message)
        → Accepts (messages_of records) inbox.taken (queue_records lib others fuel records inbox)
    unfolding queue_records
    queue_records-Accepts fuel [] inbox = (sym (append-nil inbox.taken), refl)
    queue_records-Accepts fuel (v ∷ vs) inbox =
        after_record-Accepts fuel (parse_record lib v) (messages_of vs)
          (queue_records lib others fuel vs) inbox (queue_records-Accepts fuel vs)
