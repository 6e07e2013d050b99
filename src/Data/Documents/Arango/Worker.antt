-- ===== src/Data/Documents/Arango/Worker.antt =====
-- `put_records_worker`: the worker's thread over the records of the channel.
use evernode_se.Common.{
  ℕ, suc, ◌*◌, ◌≤◌, ◌≡◌, ◌≢◌, min, subst, refl, ap, sym, ◌∙◌, inl, inr, Bool, true, false, List, [],
  ◌∷◌, ◌++◌, map, arith, length, if◌then◌else◌, Bool-cases,
}
use evernode_se.Common.Result.{NodeResult, ok, err, panic}
use evernode_se.Data.Documents.{JsonLib, Put, account, block, message, transaction, put, put_all}
use evernode_se.Data.Documents.Arango.{
  ArangoRecord, ArangoHelperConfig, ArangoHelper, Reply, Request, request_of, send, arango_db,
  first_timeout, max_timeout, timeout_backoff_multiplier,
}
use evernode_se.Data.Documents.Arango
use evernode_se.Data.Documents.Arango.Post.{Posted, is_success, post_loop, post_to_arango}
use mathlib.Core.List.{append_assoc, append-nil}

-- What has been seen of the worker: the documents that the server took, the flag of problems, the
-- answers that are left, and the records that are not done, the one at work first.
pub record Delivery (V : Type 0) : Type 0 where
  pub delivered : List Request
  pub problems : Bool
  pub replies : List Reply
  pub left : List (ArangoRecord V)

abbrev pub record_of : {V : Type 0} → Put V → ArangoRecord V
record_of (account item) = Arango.account item
record_of (block item) = Arango.block item
record_of (message item) = Arango.message item
record_of (transaction item) = Arango.transaction item

-- The answers that are a success.
abbrev pub successes : List Reply → ℕ
successes [] = 0
successes (r ∷ rs) = if is_success r then suc (successes rs) else successes rs

module _ (json : JsonLib) (config : ArangoHelperConfig) where
  open json use {Value}

  abbrev after_delivery : Request → Delivery Value → Delivery Value
  after_delivery req d = record d { delivered = req ∷ d.delivered }

  abbrev stuck : ArangoRecord Value → List (ArangoRecord Value) → Posted → Delivery Value
  stuck r rs p = record {
    delivered = [];
    problems = p.problems;
    replies = p.replies;
    left = r ∷ rs;
  }

  -- `process_item`, then the rest of the records. Its error is only logged.
  process_item :
      NodeResult Request
      → ArangoRecord Value
      → List (ArangoRecord Value)
      → Bool
      → List Reply
      → (Bool → List Reply → Delivery Value)
      → Delivery Value
  process_item (ok req) r rs problems replies rest =
      let p = post_to_arango problems replies in
      if p.taken then after_delivery req (rest p.problems p.replies) else stuck r rs p
  process_item (err error) r rs problems replies rest = rest problems replies
  process_item panic r rs problems replies rest = record {
    delivered = [];
    problems = problems;
    replies = replies;
    left = r ∷ rs;
  }

  unfoldable pub put_records_worker : List (ArangoRecord Value) → Bool → List Reply → Delivery Value
  unfolding process_item
  put_records_worker [] problems replies = record {
    delivered = [];
    problems = problems;
    replies = replies;
    left = [];
  }
  put_records_worker (r ∷ rs) problems replies =
      process_item (request_of json config r) r rs problems replies (put_records_worker rs)

  abbrev of_ok : NodeResult Request → List Request
  of_ok (ok req) = req ∷ []
  of_ok _ = []

  -- The requests of those records whose item is an object.
  abbrev pub requests : List (ArangoRecord Value) → List Request
  requests [] = []
  requests (r ∷ rs) = of_ok (request_of json config r) ++ requests rs

  process_item-in_order :
      (made : NodeResult Request) (r : ArangoRecord Value) (rs : List (ArangoRecord Value))
      (problems : Bool) (replies : List Reply) (rest : Bool → List Reply → Delivery Value)
      → request_of json config r ≡ made
      → ((p : Bool) (l : List Reply)
          → (rest p l).delivered ++ requests (rest p l).left ≡ requests rs)
      → (process_item made r rs problems replies rest).delivered
          ++ requests (process_item made r rs problems replies rest).left
        ≡ of_ok made ++ requests rs
  unfolding process_item
  process_item-in_order (ok req) r rs problems replies rest e h =
      elim (Bool-cases (post_to_arango problems replies).taken) [
        | inl taken ↦ rw taken (ap (◌∷◌ req) (h _ _))
        | inr waits ↦ rw (waits, e)
      ]
  process_item-in_order (err error) r rs problems replies rest e h = h problems replies
  process_item-in_order panic r rs problems replies rest e h = rw e

  -- Nothing is lost, repeated or overtaken: the documents that the server took and then those of the
  -- records that are left are the documents of all records, whatever the server answers.
  pub put_records_worker-in_order :
      (rs : List (ArangoRecord Value)) (problems : Bool) (replies : List Reply)
      → (put_records_worker rs problems replies).delivered
          ++ requests (put_records_worker rs problems replies).left
        ≡ requests rs
  unfolding put_records_worker
  put_records_worker-in_order [] problems replies = refl
  put_records_worker-in_order (r ∷ rs) problems replies =
      process_item-in_order (request_of json config r) r rs problems replies (put_records_worker rs)
        refl (put_records_worker-in_order rs)

  -- With a success left, a document gets through, the flag is cleared, and no other success is used up.
  post_loop-taken :
      (rs : List Reply) (timeout : ℕ) (problems : Bool) (n : ℕ)
      → suc n ≤ successes rs
      → ((post_loop timeout problems rs).taken ≡ true)
        × ((post_loop timeout problems rs).problems ≡ false)
        × (n ≤ successes (post_loop timeout problems rs).replies)
  unfolding post_loop
  post_loop-taken [] timeout problems n h = absurd (omega (arith, h))
  post_loop-taken (r ∷ rs) timeout problems n h = elim (Bool-cases (is_success r)) [
    | inl good ↦ rw good (refl, refl, ground arith)
    | inr bad ↦ rw bad (
        post_loop-taken rs (min max_timeout (timeout * timeout_backoff_multiplier)) true n
          (ground arith))
  ]

  process_item-done :
      (made : NodeResult Request) (r : ArangoRecord Value) (rs : List (ArangoRecord Value)) (n : ℕ)
      (replies : List Reply) (rest : Bool → List Reply → Delivery Value)
      → made ≢ panic
      → suc n ≤ successes replies
      → ((l : List Reply)
          → n ≤ successes l
          → ((rest false l).left ≡ []) × ((rest false l).problems ≡ false))
      → ((process_item made r rs false replies rest).left ≡ [])
        × ((process_item made r rs false replies rest).problems ≡ false)
  unfolding process_item post_to_arango
  process_item-done (ok req) r rs n replies rest fine enough h =
      let (taken, clear, more) = post_loop-taken replies first_timeout false n enough in
      rw (taken, clear) (h (post_loop first_timeout false replies).replies more)
  process_item-done (err error) r rs n replies rest fine enough h =
      h replies (omega (arith, enough))
  process_item-done panic r rs n replies rest fine enough h = absurd (fine refl)

  request_of-ne-panic : (r : ArangoRecord Value) → request_of json config r ≢ panic
  unfolding request_of
  request_of-ne-panic r = ground arith

  -- If the server takes as many requests as there are records, at whatever times, the worker gets
  -- through all of them, and the flag of delivery problems is clear.
  pub put_records_worker-done :
      (rs : List (ArangoRecord Value)) (replies : List Reply)
      → length rs ≤ successes replies
      → ((put_records_worker rs false replies).left ≡ [])
        × ((put_records_worker rs false replies).problems ≡ false)
  unfolding put_records_worker
  put_records_worker-done [] replies enough = (refl, refl)
  put_records_worker-done (r ∷ rs) replies enough =
      process_item-done (request_of json config r) r rs (length rs) replies (put_records_worker rs)
        (request_of-ne-panic r) enough (put_records_worker-done rs)

  put-send : (p : Put Value) (h : ArangoHelper Value) → put arango_db p h ≡ send (record_of p) h
  put-send (account item) h = refl
  put-send (block item) h = refl
  put-send (message item) h = refl
  put-send (transaction item) h = refl

  send-channel :
      (r : ArangoRecord Value) (h : ArangoHelper Value)
      → h.worker_lives ≡ true
      → ((send r h).1.worker_lives ≡ true) × ((send r h).1.channel ≡ h.channel ++ r ∷ [])
  unfolding send
  send-channel r h lives = ground arith

  length-map_record : (ps : List (Put Value)) → length (map record_of ps) ≡ length ps
  length-map_record [] = refl
  length-map_record (p ∷ ps) = ap suc (length-map_record ps)

  -- The calls of the database's puts leave their records in the channel, in order.
  put_all-channel :
      (ps : List (Put Value)) (h : ArangoHelper Value)
      → h.worker_lives ≡ true
      → (put_all arango_db ps h).channel ≡ h.channel ++ map record_of ps
  put_all-channel [] h lives = sym (append-nil h.channel)
  put_all-channel (p ∷ ps) h lives =
      let (lives', more) = send-channel (record_of p) h lives in
      subst (λ s. (put_all arango_db ps s.1).channel ≡ h.channel ++ record_of p ∷ map record_of ps)
        (sym (put-send p h))
        (put_all-channel ps (send (record_of p) h).1 lives'
          ∙ rw more (append_assoc h.channel (record_of p ∷ []) (map record_of ps)))

  -- A handle whose channel is empty, after any puts: whatever the server answers, the documents that it
  -- has taken, and then those of the records that the worker has left, are the documents of the puts,
  -- in order and each once.
  pub put_all-in_order :
      (ps : List (Put Value)) (h : ArangoHelper Value) (replies : List Reply)
      → h.worker_lives ≡ true
      → h.channel ≡ []
      → (put_records_worker (put_all arango_db ps h).channel false replies).delivered
          ++ requests (put_records_worker (put_all arango_db ps h).channel false replies).left
        ≡ requests (map record_of ps)
  put_all-in_order ps h replies lives empty =
      rw (put_all-channel ps h lives, empty)
        (put_records_worker-in_order (map record_of ps) false replies)

  -- A handle whose channel is empty, after any puts: if the server takes as many requests as there were
  -- puts, however often it fails in between, it has taken the documents of all puts, in order and each
  -- once, nothing is left to the worker, and no delivery problem is reported.
  pub put_all-delivered :
      (ps : List (Put Value)) (h : ArangoHelper Value) (replies : List Reply)
      → h.worker_lives ≡ true
      → h.channel ≡ []
      → length ps ≤ successes replies
      → let d = put_records_worker (put_all arango_db ps h).channel false replies in
        (d.delivered ≡ requests (map record_of ps)) × (d.left ≡ []) × (d.problems ≡ false)
  put_all-delivered ps h replies lives empty enough =
      let channel : (put_all arango_db ps h).channel ≡ map record_of ps =
        put_all-channel ps h lives ∙ ap (λ c. c ++ map record_of ps) empty in
      let (none_left, fine) =
        put_records_worker-done (map record_of ps) replies
          (omega (arith, length-map_record ps, enough)) in
      rw channel (
        sym (append-nil _)
            ∙ (ap
                  (λ l.
                    (put_records_worker (map record_of ps) false replies).delivered ++ requests l)
                  (sym none_left)
                ∙ put_records_worker-in_order (map record_of ps) false replies),
        none_left,
        fine,
      )
