-- ===== src/Engine/Messages.antt =====
-- node/src/engine/messages.rs: the bounded queue of inbound messages. The oldest message is the
-- head of the list. Each method runs under the queue's lock, so it is one step on the record; what
-- other threads do between steps is in Wakeup.
pub mod Extract
pub mod Lanes
pub mod Wakeup
mod Examples
use evernode_se.Common.{
  ℕ, zero, suc, ◌+◌, Bool, true, false, Option, none, some, List, [], ◌∷◌, ◌++◌, length, get_elem?,
  erase_idx, leb, if◌then◌else◌,
}
use evernode_se.Common.Int.{ℤ, ◌==ℤ◌}

pub record InMessagesQueue (M : Type 0) : Type 0 where
  pub storage : List M
  pub capacity : ℕ
  pub stopped : Bool

-- `Err(None)` is `not_accepting`, and `Err(Some(msg))` gives the message back.
pub data QueueResult (M : Type 0) : Type 0 where
  queued : QueueResult M
  not_accepting : QueueResult M
  full : M → QueueResult M

abbrev pub is_for : ℤ → Option ℤ → Bool
is_for w none = false
is_for w (some v) = v ==ℤ w

module _ {M : Type 0} where
  unfoldable pub new : ℕ → InMessagesQueue M
  new capacity = record { storage = []; capacity = capacity; stopped = false }

  unfoldable pub queue : M → InMessagesQueue M → QueueResult M × InMessagesQueue M
  queue msg q =
      if q.stopped
      then (not_accepting, q)
      else if leb q.capacity (length q.storage)
      then (full msg, q)
      else (queued, record q { storage = q.storage ++ msg ∷ [] })

  unfoldable pub is_full : InMessagesQueue M → Bool
  is_full q = leb q.capacity (length q.storage)

  unfoldable pub is_empty : InMessagesQueue M → Bool
  is_empty q = elim q.storage [ [] ↦ true | m ∷ ms ↦ false ]

  unfoldable pub stop : InMessagesQueue M → InMessagesQueue M
  stop q = record q { stopped = true }

  unfoldable pub start : InMessagesQueue M → InMessagesQueue M
  start q = record q { stopped = false }

module _ {M : Type 0} (workchain_id : M → Option ℤ) where
  -- Is there an i-th message, and is it for the workchain?
  wanted_at : ℤ → Option M → Bool
  wanted_at w none = false
  wanted_at w (some m) = is_for w (workchain_id m)

  -- The loop `for i in i..i + n`; the call of `remove(i)` ends it.
  unfoldable pub scan : ℕ → ℕ → ℤ → List M → Option M × List M
  unfolding wanted_at
  scan zero i w storage = (none, storage)
  scan (suc n) i w storage =
      let rest = scan n (i + 1) w storage in
      if wanted_at w (get_elem? storage i) then (get_elem? storage i, erase_idx storage i) else rest

  unfoldable pub dequeue : ℤ → InMessagesQueue M → Option M × InMessagesQueue M
  unfolding scan
  dequeue w q =
      let (found, rest) = scan (length q.storage) 0 w q.storage in
      (found, record q { storage = rest })
