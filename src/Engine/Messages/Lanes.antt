-- ===== src/Engine/Messages/Lanes.antt =====
-- The queue seen as one FIFO for each workchain, over any history of calls.
use evernode_se.Common.{
  ◌≤◌, ◌≡◌, refl, sym, ap, ◌∙◌, inl, inr, Bool, true, false, Option, none, some, List, [], ◌∷◌,
  ◌++◌, arith, length, length-append, filter_by, filter_by-append, if◌then◌else◌, Bool-cases,
}
use evernode_se.Common.Int.{ℤ, ◌==ℤ◌, ==ℤ_iff}
use evernode_se.Engine.Messages.{
  InMessagesQueue, QueueResult, queued, is_for, queue, stop, start, dequeue,
}
use evernode_se.Engine.Messages.Extract.{extract, dequeue-extract}
use mathlib.Core.List.{append_assoc, append-nil}

-- A call of the API's or of a builder's.
pub data QueueOp (M : Type 0) : Type 0 where
  enqueue : M → QueueOp M
  take_for : ℤ → QueueOp M
  stops : QueueOp M
  starts : QueueOp M

-- A message is for one workchain only.
is_for-other : (v w : ℤ) (o : Option ℤ) → (v ==ℤ w) ≡ false → is_for w o ≡ true → is_for v o ≡ false
is_for-other v w none h e = refl
is_for-other v w (some u) h e = ground (arith, ==ℤ_iff u w, ==ℤ_iff u v, ==ℤ_iff v w)

module _ {M : Type 0} (workchain_id : M → Option ℤ) where
  abbrev pub for_workchain : ℤ → M → Bool
  for_workchain w m = is_for w (workchain_id m)

  -- The messages of one workchain, oldest first.
  abbrev pub lane : ℤ → InMessagesQueue M → List M
  lane w q = filter_by (for_workchain w) q.storage

  unfoldable pub step : QueueOp M → InMessagesQueue M → InMessagesQueue M
  step (enqueue m) q = (queue m q).1
  step (take_for w) q = (dequeue workchain_id w q).1
  step stops q = stop q
  step starts q = start q

  unfoldable pub run : List (QueueOp M) → InMessagesQueue M → InMessagesQueue M
  run [] q = q
  run (op ∷ ops) q = run ops (step op q)

  abbrev if_queued : QueueResult M → M → List M
  if_queued queued m = m ∷ []
  if_queued _ m = []

  abbrev if_found : Option M → List M
  if_found none = []
  if_found (some m) = m ∷ []

  -- The messages that a history's calls accept, and those that they hand out for a workchain.
  unfoldable pub accepted : List (QueueOp M) → InMessagesQueue M → List M
  accepted [] q = []
  accepted (enqueue m ∷ ops) q = if_queued (queue m q).0 m ++ accepted ops (step (enqueue m) q)
  accepted (take_for w ∷ ops) q = accepted ops (step (take_for w) q)
  accepted (stops ∷ ops) q = accepted ops (step stops q)
  accepted (starts ∷ ops) q = accepted ops (step starts q)

  unfoldable pub delivered : ℤ → List (QueueOp M) → InMessagesQueue M → List M
  delivered v [] q = []
  delivered v (take_for w ∷ ops) q =
      let rest = delivered v ops (step (take_for w) q) in
      if v ==ℤ w then if_found (dequeue workchain_id w q).0 ++ rest else rest
  delivered v (enqueue m ∷ ops) q = delivered v ops (step (enqueue m) q)
  delivered v (stops ∷ ops) q = delivered v ops (step stops q)
  delivered v (starts ∷ ops) q = delivered v ops (step starts q)

  lane-queue :
      (v : ℤ) (m : M) (q : InMessagesQueue M)
      → lane v (queue m q).1 ≡ lane v q ++ filter_by (for_workchain v) (if_queued (queue m q).0 m)
  unfolding queue
  lane-queue v m q = ground (
    arith,
    filter_by-append (for_workchain v) q.storage (m ∷ []),
    append-nil (filter_by (for_workchain v) q.storage),
  )

  extract-same :
      (w : ℤ) (ms : List M)
      → filter_by (for_workchain w) ms
        ≡ if_found (extract workchain_id w ms).0
          ++ filter_by (for_workchain w) (extract workchain_id w ms).1
  extract-same w [] = refl
  extract-same w (m ∷ ms) = ground (arith, extract-same w ms)

  extract-other :
      (v w : ℤ) (ms : List M)
      → (v ==ℤ w) ≡ false
      → filter_by (for_workchain v) (extract workchain_id w ms).1 ≡ filter_by (for_workchain v) ms
  extract-other v w [] h = refl
  extract-other v w (m ∷ ms) h =
      ground (arith, extract-other v w ms h, is_for-other v w (workchain_id m) h)

  lane-take_for :
      (v w : ℤ) (q : InMessagesQueue M)
      → lane v q
        ≡ (if v ==ℤ w then if_found (dequeue workchain_id w q).0 else [])
          ++ lane v (dequeue workchain_id w q).1
  lane-take_for v w q = rw (dequeue-extract workchain_id w q) (elim (Bool-cases (v ==ℤ w)) [
    | inl same ↦ rw (same, (==ℤ_iff v w).0 same) (extract-same w q.storage)
    | inr other ↦ rw other (sym (extract-other v w q.storage other))
  ])

  -- For each workchain, and whatever calls are made in between: the messages that were waiting and
  -- those that were accepted are, in this order, those that were handed out and those that wait. So
  -- no accepted message is lost, duplicated, overtaken or given to another workchain.
  pub run-is_fifo :
      (v : ℤ) (ops : List (QueueOp M)) (q : InMessagesQueue M)
      → lane v q ++ filter_by (for_workchain v) (accepted ops q)
        ≡ delivered v ops q ++ lane v (run ops q)
  unfolding run accepted delivered step stop start
  run-is_fifo v [] q = append-nil (lane v q)
  run-is_fifo v (enqueue m ∷ ops) q =
      rw (filter_by-append (for_workchain v), ← append_assoc, ← lane-queue v m q)
        (run-is_fifo v ops (queue m q).1)
  run-is_fifo v (take_for w ∷ ops) q =
      let q' : InMessagesQueue M = (dequeue workchain_id w q).1 in
      let taken : List M = if_found (dequeue workchain_id w q).0 in
      elim (Bool-cases (v ==ℤ w)) [
        | inl same ↦
            rw (lane-take_for v w q, same)
              (append_assoc taken (lane v q') _
                ∙ ap (◌++◌ taken) (run-is_fifo v ops q')
                ∙ sym (append_assoc taken _ _))
        | inr other ↦ rw (lane-take_for v w q, other) (run-is_fifo v ops q')
      ]
  run-is_fifo v (stops ∷ ops) q = run-is_fifo v ops (stop q)
  run-is_fifo v (starts ∷ ops) q = run-is_fifo v ops (start q)

  extract-length-le : (w : ℤ) (ms : List M) → length (extract workchain_id w ms).1 ≤ length ms
  extract-length-le w [] = omega arith
  extract-length-le w (m ∷ ms) = ground (arith, extract-length-le w ms)

  step-bounded :
      (op : QueueOp M) (q : InMessagesQueue M)
      → length q.storage ≤ q.capacity
      → length (step op q).storage ≤ (step op q).capacity
  unfolding step queue stop start
  step-bounded (enqueue m) q h = ground (arith, length-append {0} q.storage (m ∷ []))
  step-bounded (take_for w) q h =
      rw (step, dequeue-extract workchain_id w q) (omega (arith, extract-length-le w q.storage))
  step-bounded stops q h = h
  step-bounded starts q h = h

  -- No history takes the queue past its capacity.
  pub run-bounded :
      (ops : List (QueueOp M)) (q : InMessagesQueue M)
      → length q.storage ≤ q.capacity
      → length (run ops q).storage ≤ (run ops q).capacity
  unfolding run
  run-bounded [] q h = h
  run-bounded (op ∷ ops) q h = run-bounded ops (step op q) (step-bounded op q h)
