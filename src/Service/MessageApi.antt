-- ===== src/Service/MessageApi.antt =====
-- node/src/service/message_api.rs: the endpoint that takes messages into the queue. The JSON, base64
-- and cell libraries are parameters. While a thread of the endpoint waits for room, the engine's
-- thread works on the queue, and a control command can put a new node in the place of the old.
pub mod Accepted
pub mod Patience
mod Examples
use evernode_se.Common.{
  ℕ, zero, suc, String, Option, none, some, List, [], ◌∷◌, ◌++◌, ◌==◌, if◌then◌else◌,
}
use evernode_se.Common.Bytes.{Bytes}
use evernode_se.Engine.Messages.{InMessagesQueue, QueueResult, queued, not_accepting, full, queue}

pub record MessageLib : Type 1 where
  pub Value : Type 0
  pub Cell : Type 0
  pub Message : Type 0
  -- `serde_json::from_str`, `as_object().get(..)`, `as_array` and `as_str`
  pub from_str : String → Option Value
  pub field : Value → String → Option Value
  pub as_array : Value → Option (List Value)
  pub as_str : Value → Option String
  pub base64_decode : String → Option Bytes
  -- `UInt256::from_str`
  pub hash_from_str : String → Option ℕ
  pub read_single_root_boc : Bytes → Option Cell
  pub repr_hash : Cell → ℕ
  pub construct_from_cell : Cell → Option Message

-- The texts of the errors.
pub data ParseError : Type 0 where
  decoding_message : ParseError
  decoding_id : ParseError
  deserializing_message : ParseError
  other_hash : ParseError
  parsing_cells : ParseError

pub data Parsed (M : Type 0) : Type 0 where
  message : M → Parsed M
  error : ParseError → Parsed M

-- `still_waiting` is where the fuel of the loop of one message ends.
pub data Response : Type 0 where
  status_ok : Response
  bad_message : ParseError → Response
  bad_body : Response
  does_not_accept : Response
  still_waiting : Response

pub data Sent : Type 0 where
  accepted : Sent
  refused : Sent
  waiting : Sent

-- The queue of the current node, the attempts so far, and the messages accepted so far.
pub record Inbox (M : Type 0) : Type 0 where
  pub message_queue : InMessagesQueue M
  pub attempts : ℕ
  pub taken : List M

module _ (lib : MessageLib) where
  open lib use {Value, Message, Cell}

  of_cell : Option Message → Parsed Message
  of_cell none = error parsing_cells
  of_cell (some m) = message m

  checked : ℕ → Option Cell → Parsed Message
  unfolding of_cell
  checked id none = error deserializing_message
  checked id (some cell) =
      if lib.repr_hash cell == id then of_cell (lib.construct_from_cell cell) else error other_hash

  with_id : Bytes → Option ℕ → Parsed Message
  unfolding checked
  with_id bytes none = error decoding_id
  with_id bytes (some id) = checked id (lib.read_single_root_boc bytes)

  unfoldable pub parse_message : String → String → Parsed Message
  unfolding with_id
  parse_message id_b64 message_b64 = elim (lib.base64_decode message_b64) [
    | none ↦ error decoding_message
    | some bytes ↦ with_id bytes (lib.hash_from_str id_b64)
  ]

  abbrev pub and_str : Option Value → Option String
  and_str none = none
  and_str (some v) = lib.as_str v

  abbrev parse_fields : Option String → Option String → Option (Parsed Message)
  unfolding parse_message
  parse_fields (some key) (some value) = some (parse_message key value)
  parse_fields _ _ = none

  -- A record without a key or a value is passed over.
  unfoldable pub parse_record : Value → Option (Parsed Message)
  unfolding parse_fields
  parse_record record_value =
      parse_fields (and_str (lib.field record_value "key"))
        (and_str (lib.field record_value "value"))

  module _ (others : ℕ → InMessagesQueue Message → InMessagesQueue Message) where
    abbrev after_attempt :
        (Message → Inbox Message → Sent × Inbox Message)
        → Message
        → ℕ
        → List Message
        → QueueResult Message × InMessagesQueue Message
        → Sent × Inbox Message
    after_attempt rest msg n taken (queued, q) =
        (accepted, record { message_queue = q; attempts = suc n; taken = taken ++ msg ∷ [] })
    after_attempt rest msg n taken (not_accepting, q) =
        (refused, record { message_queue = q; attempts = suc n; taken = taken })
    after_attempt rest msg n taken (full back, q) =
        rest back (record { message_queue = q; attempts = suc n; taken = taken })

    -- The loop `while let Err(msg) = queue(message)`, with fuel. What other threads do before the n-th
    -- attempt of the request is `others n`.
    unfoldable pub send : ℕ → Message → Inbox Message → Sent × Inbox Message
    send zero msg inbox = (waiting, inbox)
    send (suc fuel) msg inbox =
        after_attempt (send fuel) msg inbox.attempts inbox.taken
          (queue msg (others inbox.attempts inbox.message_queue))

    abbrev pub after_sent :
        (Inbox Message → Response × Inbox Message) → Sent × Inbox Message → Response × Inbox Message
    after_sent rest (accepted, inbox) = rest inbox
    after_sent rest (refused, inbox) = (does_not_accept, inbox)
    after_sent rest (waiting, inbox) = (still_waiting, inbox)

    abbrev pub after_record :
        ℕ
        → (Inbox Message → Response × Inbox Message)
        → Option (Parsed Message)
        → Inbox Message
        → Response × Inbox Message
    after_record fuel rest none inbox = rest inbox
    after_record fuel rest (some (error e)) inbox = (bad_message e, inbox)
    after_record fuel rest (some (message m)) inbox = after_sent rest (send fuel m inbox)

    -- The loop over the records.
    unfoldable pub queue_records : ℕ → List Value → Inbox Message → Response × Inbox Message
    unfolding parse_record send
    queue_records fuel [] inbox = (status_ok, inbox)
    queue_records fuel (v ∷ vs) inbox =
        after_record fuel (queue_records fuel vs) (parse_record v) inbox

    abbrev pub and_array : Option Value → Option (List Value)
    and_array none = none
    and_array (some v) = lib.as_array v

    abbrev pub records_of : Option Value → Option (List Value)
    records_of none = none
    records_of (some body) = and_array (lib.field body "records")

    abbrev pub json_of : Option String → Option Value
    json_of none = none
    json_of (some body) = lib.from_str body

    abbrev pub answer : ℕ → Option (List Value) → Inbox Message → Response × Inbox Message
    answer fuel none inbox = (bad_body, inbox)
    answer fuel (some records) inbox = queue_records fuel records inbox

    -- The body is `none` where it cannot be read.
    unfoldable pub process_request : ℕ → Option String → Inbox Message → Response × Inbox Message
    unfolding queue_records
    process_request fuel body inbox = answer fuel (records_of (json_of body)) inbox
