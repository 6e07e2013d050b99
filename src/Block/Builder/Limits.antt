-- ===== src/Block/Builder/Limits.antt =====
-- What the parts of `build_block` do to the count of executed messages in sequential mode.
use evernode_se.Common.{
  ℕ, ◌+◌, ◌%◌, ◌^◌, ◌≤◌, ◌≡◌, refl, ap, sym, subst, ◌∙◌, Bool, true, false, Option, none, some,
  List, [], ◌∷◌, inl, inr, arith, Bool-cases,
}
use evernode_se.Common.Result.{NodeResult, ok, err, panic}
use evernode_se.Common.Exec.{continue}
use evernode_se.Engine.Time.{seq, is_seq}
use evernode_se.Block.Ever.{EverBlock}
use evernode_se.Block.Executor.{ExecLib}
use evernode_se.Block.Builder.{BlockBuilder, is_limits_reached}
use evernode_se.Block.Builder.Execute.{execute}
use evernode_se.Block.Builder.Build.{
  execute_for, import_one, import_internal, enqueue_new, deliver_new, process_new,
}
use evernode_se.Block.Builder.Counts.{counted, execute-counted}

module _ (e : EverBlock) (x : ExecLib e) (config : x.Config) where
  open x use {Message, AccountId, EnqueuedMsg, QueueKey}

  -- Sequential mode with at most one message executed, and none where the block is not full.
  abbrev pub Single : Bool → BlockBuilder e x → Type 0
  Single full b =
      (b.time_mode ≡ seq)
      × (b.total_message_processed ≤ 1)
      × (full ≡ false → b.total_message_processed ≡ 0)

  pub limits_of_one :
      (b : BlockBuilder e x)
      → b.time_mode ≡ seq
      → b.total_message_processed ≤ 1
      → Single (is_limits_reached e x b) b
  unfolding is_limits_reached is_seq
  limits_of_one b m h = (m, h, ground arith)

  pub room-Single :
      (b : BlockBuilder e x) → is_limits_reached e x b ≡ false → Single true b → Single false b
  room-Single b room (m, h, z) = subst (λ full. Single full b) room (limits_of_one b m h)

  pub execute-Single :
      (msg : Message) (acc_id : AccountId) (full : Bool) (b : BlockBuilder e x)
      → full ≡ false
      → Single full b
      → Single true (execute e x msg config acc_id b).1
  execute-Single msg acc_id full b n (m, h, z) =
      let same = execute-counted e x msg config acc_id b in
      let one : (execute e x msg config acc_id b).1.total_message_processed ≡ 1 =
        ap (λ c. c.1) same ∙ ap (λ k. (k + 1) % 2 ^ 64) (z n) in
      (ap (λ c. c.0) same ∙ m, omega (arith, one), λ no. cc)

  execute_for-Single :
      (msg : Message) (o : Option AccountId) (b : BlockBuilder e x)
      → Single false b
      → Single true (execute_for e x config msg o b).1
  execute_for-Single msg none b (m, h, z) = (m, h, λ no. cc)
  execute_for-Single msg (some acc_id) b s = execute-Single msg acc_id false b refl s

  import_one-Single :
      (key : QueueKey) (enq : EnqueuedMsg) (b : BlockBuilder e x)
      → Single false b
      → Single true (import_one e x config key enq b).1
  unfolding import_one
  import_one-Single key enq b s = grind (arith, execute_for-Single)

  pub enqueue_new-counted :
      (created_lt : ℕ) (env : x.Envelope) (acc_id : AccountId) (c d : e.Cell) (b : BlockBuilder e x)
      → counted e x (enqueue_new e x config created_lt env acc_id c d b).1 ≡ counted e x b
  unfolding enqueue_new
  enqueue_new-counted created_lt env acc_id c d b = ground arith

  -- What holds of the state after an action that returns flags or the flag `block_full`.
  abbrev pub Fills : {A : Type 0} → (A → Bool) → NodeResult A × BlockBuilder e x → Type 0
  Fills full (ok a, b) = Single (full a) b
  Fills full (err error, b) = Single true b
  Fills full (panic, b) = Single true b

  continue-Fills :
      {A B : Type 0} (full : B → Bool) (r : NodeResult A × BlockBuilder e x)
      (f : A → BlockBuilder e x → NodeResult B × BlockBuilder e x)
      → Single true r.1
      → ((a : A) (b : BlockBuilder e x) → Single true b → Fills full (f a b))
      → Fills full (continue r.0 f r.1)
  continue-Fills full (ok a, b) f s h = h a b s
  continue-Fills full (err error, b) f s h = s
  continue-Fills full (panic, b) f s h = s

  pub import_internal-Fills :
      (items : List (QueueKey × EnqueuedMsg × ℕ)) (empty : Bool) (b : BlockBuilder e x)
      → Single false b
      → Fills (λ f. f.block_full) (import_internal e x config items empty b)
  unfolding import_internal
  import_internal-Fills [] empty b s = s
  import_internal-Fills ((key, enq, lt) ∷ rest) empty b s =
      continue-Fills (λ f. f.block_full) (import_one e x config key enq b) _
        (import_one-Single key enq b s)
        λ _ b' done. elim (Bool-cases (is_limits_reached e x b')) [
          | inl reached ↦ rw reached done
          | inr room ↦ rw room (import_internal-Fills rest false b' (room-Single b' room done))
        ]

  pub Single-counted :
      (full : Bool) (a b : BlockBuilder e x)
      → counted e x a ≡ counted e x b
      → Single full b
      → Single full a
  Single-counted full a b same =
      subst (λ c. (c.0 ≡ seq) × (c.1 ≤ 1) × (full ≡ false → c.1 ≡ 0)) (sym same)

  -- An action that executes nothing.
  then_same-Fills :
      (full : Bool) (r : NodeResult (Unit {0}) × BlockBuilder e x) (b : BlockBuilder e x)
      → counted e x r.1 ≡ counted e x b
      → Single full b
      → Fills (λ f. f) (continue r.0 (λ _ b'. (ok full, b')) r.1)
  then_same-Fills full (ok u, a) b same s = Single-counted full a b same s
  then_same-Fills full (err error, a) b same (m, h, z) =
      Single-counted true a b same (m, h, λ no. cc)
  then_same-Fills full (panic, a) b same (m, h, z) = Single-counted true a b same (m, h, λ no. cc)

  deliver_new-Fills :
      (inside full : Bool) (msg : Message) (lt : ℕ) (env : x.Envelope) (acc_id : AccountId)
      (c d : e.Cell) (b : BlockBuilder e x)
      → Single full b
      → Fills (λ f. f) (deliver_new e x config inside full msg lt env acc_id c d b)
  unfolding deliver_new
  deliver_new-Fills true true msg lt env acc_id c d b s =
      then_same-Fills true (enqueue_new e x config lt env acc_id c d b) b
        (enqueue_new-counted lt env acc_id c d b) s
  deliver_new-Fills false true msg lt env acc_id c d b s =
      then_same-Fills true (enqueue_new e x config lt env acc_id c d b) b
        (enqueue_new-counted lt env acc_id c d b) s
  deliver_new-Fills false false msg lt env acc_id c d b s =
      then_same-Fills false (enqueue_new e x config lt env acc_id c d b) b
        (enqueue_new-counted lt env acc_id c d b) s
  deliver_new-Fills true false msg lt env acc_id c d b s =
      continue-Fills (λ f. f) (execute e x msg config acc_id b) _
        (execute-Single msg acc_id false b refl s) λ _ b' (m, h, z). limits_of_one b' m h

  pub process_new-Fills :
      (msg : Message) (cell : e.Cell) (full : Bool) (b : BlockBuilder e x)
      → Single full b
      → Fills (λ f. f) (process_new e x config msg cell full b)
  unfolding process_new
  process_new-Fills msg cell full b s = grind (arith, deliver_new-Fills)
