-- ===== src/Engine/Messages/Examples.antt =====
-- Tests of the queue, and its theorems at concrete messages: pairs of a workchain and a number.
use evernode_se.Common.{
  ℕ, ◌≡◌, refl, Option, some, true, false, List, [], ◌∷◌, ◌++◌, arith, filter_by,
}
use evernode_se.Common.Int.{ℤ, pos, negsuc}
use evernode_se.Engine.Messages.{queue, queued, InMessagesQueue, dequeue}
use evernode_se.Engine.Messages.Lanes.{
  QueueOp, enqueue, take_for, stops, starts, lane, run, accepted, delivered, for_workchain,
  run-is_fifo,
}
use evernode_se.Engine.Messages.Wakeup.{
  Threads, EngineStep, Reach, working, waiting, lost_wakeup, lost_stop,
}

abbrev Packet : Type 0
Packet = ℤ × ℕ

abbrev target : Packet → Option ℤ
target p = some p.0

abbrev mixed : InMessagesQueue Packet
mixed = record {
  storage = (negsuc 0, 1) ∷ (pos 0, 2) ∷ (pos 0, 3) ∷ [];
  capacity = 4;
  stopped = false;
}

dequeue_test :
    dequeue target (pos 0) mixed
    ≡ (some (pos 0, 2), record mixed { storage = (negsuc 0, 1) ∷ (pos 0, 3) ∷ [] })
unfolding dequeue
dequeue_test = refl

abbrev calls : List (QueueOp Packet)
calls =
    take_for (pos 0)
    ∷ enqueue (pos 0, 4)
    ∷ enqueue (pos 0, 5)
    ∷ enqueue (pos 0, 6)
    ∷ stops
    ∷ enqueue (pos 0, 7)
    ∷ starts
    ∷ take_for (pos 0)
    ∷ take_for (negsuc 0)
    ∷ []

run-is_fifo_example :
    lane target (pos 0) mixed
      ++ filter_by (for_workchain target (pos 0)) (accepted target calls mixed)
    ≡ delivered target (pos 0) calls mixed ++ lane target (pos 0) (run target calls mixed)
run-is_fifo_example = run-is_fifo target (pos 0) calls mixed

abbrev idle : Threads Packet
idle = record { engine = working; inbox = record { storage = []; capacity = 4; stopped = false } }

lost_wakeup_example :
    (u : Threads Packet) × Reach target idle u
    × (u.inbox.storage ≡ (pos 0, 9) ∷ [])
    × (u.engine ≡ waiting)
    × ((v : Threads Packet) → ¬ EngineStep target u v)
lost_wakeup_example = lost_wakeup target idle (pos 0, 9) refl refl refl (omega arith)

lost_stop_example :
    (u : Threads Packet) × Reach target idle u
    × (u.inbox.stopped ≡ true)
    × (u.engine ≡ waiting)
    × ((v : Threads Packet) → ¬ EngineStep target u v)
    × ((m : Packet) → ¬ ((queue m u.inbox).0 ≡ queued))
lost_stop_example = lost_stop target idle refl refl refl
