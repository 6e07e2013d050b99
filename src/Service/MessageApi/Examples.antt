-- ===== src/Service/MessageApi/Examples.antt =====
-- A request over a small library: a body has three records, of which the last has no key, and each
-- message is number 7. Other threads take a message out before each attempt.
use evernode_se.Common.{ℕ, suc, ◌≡◌, refl, ltb, none, some, [], ◌∷◌, false, arith, if◌then◌else◌}
use evernode_se.Engine.Messages.{InMessagesQueue, queue}
use evernode_se.Service.MessageApi.{
  MessageLib, status_ok, Inbox, queue_records, process_request, parse_record, parse_message, send,
}
use evernode_se.Service.MessageApi.Accepted.{messages_of, Accepts, queue_records-Accepts}
use evernode_se.Service.MessageApi.Patience.{FindsRoom, Completes, queue_records-Completes}

abbrev lib : MessageLib
lib = record {
  Value = ℕ;
  Cell = ℕ;
  Message = ℕ;
  from_str = λ s. some 0;
  field = λ v name. some (suc v);
  as_array = λ v. some (10 ∷ 20 ∷ 30 ∷ []);
  as_str = λ v. if ltb v 30 then some "m" else none;
  base64_decode = λ s. some [];
  hash_from_str = λ s. some 1;
  read_single_root_boc = λ b. some 7;
  repr_hash = λ c. 1;
  construct_from_cell = some;
}

abbrev emptied : ℕ → InMessagesQueue ℕ → InMessagesQueue ℕ
emptied n q = record { storage = []; capacity = 1; stopped = false }

abbrev start : Inbox ℕ
start = record {
  message_queue = record { storage = 3 ∷ []; capacity = 1; stopped = false };
  attempts = 0;
  taken = [];
}

answers : process_request lib emptied 1 (some "body") start ≡ (
  status_ok,
  record {
    message_queue = record { storage = 7 ∷ []; capacity = 1; stopped = false };
    attempts = 2;
    taken = 7 ∷ 7 ∷ [];
  },
)
unfolding process_request queue_records parse_record parse_message send queue
answers = refl

finds : FindsRoom 1 emptied
finds n = (0, omega arith, λ q. refl)

queue_records-Accepts_example :
    Accepts lib
      (messages_of lib (10 ∷ 20 ∷ 30 ∷ []))
      []
      (queue_records lib emptied 1 (10 ∷ 20 ∷ 30 ∷ []) start)
queue_records-Accepts_example = queue_records-Accepts lib emptied 1 (10 ∷ 20 ∷ 30 ∷ []) start

queue_records-Completes_example :
    Completes lib
      (messages_of lib (10 ∷ 20 ∷ 30 ∷ []))
      []
      (queue_records lib emptied 1 (10 ∷ 20 ∷ 30 ∷ []) start)
queue_records-Completes_example =
    queue_records-Completes lib emptied (λ n q. refl) 1 finds (10 ∷ 20 ∷ 30 ∷ []) start
