-- ===== src/Engine/Messages/Wakeup.antt =====
-- The engine's thread (`TonNodeEngine::run` of node/src/engine/engine.rs) against the API's threads.
-- Between the engine's test that the queue is empty and its wait, the lock is free.
use evernode_se.Common.{◌<◌, ◌≡◌, refl, true, false, Option, [], ◌∷◌, arith}
use evernode_se.Common.Int.{ℤ}
use evernode_se.Engine.Messages.{InMessagesQueue, queued, queue, is_empty, stop, dequeue}

-- Where the engine's thread stands: in `execute_queued_messages` or at the test after it; behind a
-- test that found the queues empty; behind the first look at the flag, before the lock is taken; in
-- the condition variable's wait; woken, before the second look at the flag; out of the loop.
pub data EnginePoint : Type 0 where
  working : EnginePoint
  found_empty : EnginePoint
  saw_running : EnginePoint
  waiting : EnginePoint
  woken : EnginePoint
  exited : EnginePoint

pub record Threads (M : Type 0) : Type 0 where
  pub engine : EnginePoint
  pub inbox : InMessagesQueue M

-- `notify_one` wakes the engine if it waits, and is lost if it does not.
unfoldable pub notify_one : EnginePoint → EnginePoint
notify_one waiting = woken
notify_one p = p

module _ {M : Type 0} (workchain_id : M → Option ℤ) where
  -- A step of the engine's thread. The chains' own queues are empty.
  pub data EngineStep (t : Threads M) : Threads M → Type 0 where
    takes :
        (w : ℤ) (u : Threads M)
        → t.engine ≡ working
        → u ≡ record t { inbox = (dequeue workchain_id w t.inbox).1 }
        → EngineStep t u
    sees_empty :
        (u : Threads M)
        → t.engine ≡ working
        → is_empty t.inbox ≡ true
        → u ≡ record t { engine = found_empty }
        → EngineStep t u
    looks :
        (u : Threads M)
        → t.engine ≡ found_empty
        → t.inbox.stopped ≡ false
        → u ≡ record t { engine = saw_running }
        → EngineStep t u
    waits :
        (u : Threads M)
        → t.engine ≡ saw_running
        → u ≡ record t { engine = waiting }
        → EngineStep t u
    leaves :
        (u : Threads M)
        → t.engine ≡ found_empty
        → t.inbox.stopped ≡ true
        → u ≡ record t { engine = exited }
        → EngineStep t u
    resumes :
        (u : Threads M)
        → t.engine ≡ woken
        → t.inbox.stopped ≡ false
        → u ≡ record t { engine = working }
        → EngineStep t u
    leaves_woken :
        (u : Threads M)
        → t.engine ≡ woken
        → t.inbox.stopped ≡ true
        → u ≡ record t { engine = exited }
        → EngineStep t u

  -- A step of another thread: a message that is accepted, or a stop. Both notify.
  pub data ApiStep (t : Threads M) : Threads M → Type 0 where
    sends :
        (m : M) (u : Threads M)
        → (queue m t.inbox).0 ≡ queued
        → u ≡ record { engine = notify_one t.engine; inbox = (queue m t.inbox).1 }
        → ApiStep t u
    stops :
        (u : Threads M)
        → u ≡ record { engine = notify_one t.engine; inbox = stop t.inbox }
        → ApiStep t u

  pub data Reach (s : Threads M) : Threads M → Type 0 where
    here : Reach s s
    engine_next : {t u : Threads M} → Reach s t → EngineStep t u → Reach s u
    api_next : {t u : Threads M} → Reach s t → ApiStep t u → Reach s u

  -- The engine's thread has no step of its own while it waits.
  waiting-stuck : {t u : Threads M} → t.engine ≡ waiting → ¬ EngineStep t u
  waiting-stuck e (takes w u p q) = cc
  waiting-stuck e (sees_empty u p h q) = cc
  waiting-stuck e (looks u p h q) = cc
  waiting-stuck e (waits u p q) = cc
  waiting-stuck e (leaves u p h q) = cc
  waiting-stuck e (resumes u p h q) = cc
  waiting-stuck e (leaves_woken u p h q) = cc

  -- The engine's thread gets from its work to the brink of the wait.
  Reach-saw_running :
      (t : Threads M)
      → t.engine ≡ working
      → t.inbox.storage ≡ []
      → t.inbox.stopped ≡ false
      → Reach t (record t { engine = saw_running })
  unfolding is_empty
  Reach-saw_running t at_work empty running =
      engine_next
        (engine_next here
          (sees_empty (record t { engine = found_empty }) at_work (ground arith) refl))
        (looks _ refl running refl)

  -- A wake-up can be lost. From every state in which the engine is at work on an empty running queue
  -- with room, and for every message: a schedule leads to a state where the message is queued, the
  -- engine waits, and no step of the engine's thread is possible.
  pub lost_wakeup :
      (t : Threads M) (m : M)
      → t.engine ≡ working
      → t.inbox.storage ≡ []
      → t.inbox.stopped ≡ false
      → 0 < t.inbox.capacity
      → (u : Threads M) × Reach t u
        × (u.inbox.storage ≡ m ∷ [])
        × (u.engine ≡ waiting)
        × ((v : Threads M) → ¬ EngineStep u v)
  unfolding queue notify_one
  lost_wakeup t m at_work empty running room = (
    record { engine = waiting; inbox = (queue m t.inbox).1 },
    engine_next
        (api_next (Reach-saw_running t at_work empty running) (sends m _ (ground arith) refl))
        (waits _ refl refl),
    ground arith,
    refl,
    λ v. waiting-stuck refl,
  )

  -- So can a stop. From every state in which the engine is at work on an empty running queue a schedule
  -- leads to a stopped queue with the engine waiting. No step of the engine's thread is possible there;
  -- the queue refuses every message, so that nothing but another stop can wake the engine.
  pub lost_stop :
      (t : Threads M)
      → t.engine ≡ working
      → t.inbox.storage ≡ []
      → t.inbox.stopped ≡ false
      → (u : Threads M) × Reach t u
        × (u.inbox.stopped ≡ true)
        × (u.engine ≡ waiting)
        × ((v : Threads M) → ¬ EngineStep u v)
        × ((m : M) → ¬ ((queue m u.inbox).0 ≡ queued))
  unfolding stop notify_one queue
  lost_stop t at_work empty running = (
    record { engine = waiting; inbox = stop t.inbox },
    engine_next (api_next (Reach-saw_running t at_work empty running) (stops _ refl))
        (waits _ refl refl),
    refl,
    refl,
    λ v. waiting-stuck refl,
    λ m h. ground arith,
  )

  -- While the engine waits, a message or a stop wakes it.
  pub api-wakes : (t u : Threads M) → t.engine ≡ waiting → ApiStep t u → u.engine ≡ woken
  unfolding notify_one
  api-wakes t u e (sends m u' q p) = ground arith
  api-wakes t u e (stops u' p) = ground arith
