-- ===== src/Block/Builder/Rounds.antt =====
-- How many rounds of new messages there are.
use evernode_se.Common.{
  ℕ, suc, ◌+◌, ◌%◌, ◌^◌, ◌≡◌, refl, ap, sym, ◌∙◌, subst, Bool, true, false, ◌||◌, List, [], ◌∷◌,
  inl, inr, arith, Bool-cases,
}
use evernode_se.Common.Result.{NodeResult, ok, err, panic}
use evernode_se.Common.Exec.{continue}
use evernode_se.Common.Post.{Post, Post-then, Post-map}
use evernode_se.Block.Ever.{EverBlock}
use evernode_se.Block.Executor.{ExecLib}
use evernode_se.Block.Builder.{BlockBuilder, is_limits_reached}
use evernode_se.Block.Builder.Execute.{execute}
use evernode_se.Block.Builder.Build.{
  Flags, enqueue_new, deliver_new, process_new, process_round, process_rounds,
}
use evernode_se.Block.Builder.Counts.{execute-counted}
use evernode_se.Block.Builder.Limits.{
  Single, Fills, limits_of_one, execute-Single, process_new-Fills,
}

module _ (e : EverBlock) (x : ExecLib e) (config : x.Config) where
  open x use {Message, AccountId}

  -- The waiting messages are those of the list, if the flag is as given.
  abbrev Waiting : List (Message × e.Cell) → Bool → BlockBuilder e x → Type 0
  Waiting ms full b = full ≡ false → b.new_messages ≡ ms

  enqueue_new-waiting :
      (lt : ℕ) (env : x.Envelope) (acc_id : AccountId) (c d : e.Cell) (b : BlockBuilder e x)
      → (enqueue_new e x config lt env acc_id c d b).1.new_messages ≡ b.new_messages
  unfolding enqueue_new
  enqueue_new-waiting lt env acc_id c d b = ground arith

  -- A full block stays full, and gets no new message.
  abbrev Stuck : List (Message × e.Cell) → Bool → BlockBuilder e x → Type 0
  Stuck ms full b = (full ≡ true) × (b.new_messages ≡ ms)

  deliver_new-Stuck :
      (inside : Bool) (msg : Message) (lt : ℕ) (env : x.Envelope) (acc_id : AccountId)
      (c d : e.Cell) (b : BlockBuilder e x)
      → Post (Stuck b.new_messages) (deliver_new e x config inside true msg lt env acc_id c d b)
  unfolding deliver_new
  deliver_new-Stuck inside msg lt env acc_id c d b =
      ground (arith, enqueue_new-waiting lt env acc_id c d b)

  process_new-Stuck :
      (msg : Message) (cell : e.Cell) (b : BlockBuilder e x)
      → Post (Stuck b.new_messages) (process_new e x config msg cell true b)
  unfolding process_new
  process_new-Stuck msg cell b = grind (arith, deliver_new-Stuck)

  process_round-Stuck :
      (ms : List (Message × e.Cell)) (b : BlockBuilder e x)
      → Post (Stuck b.new_messages) (process_round e x config ms true b)
  unfolding process_round
  process_round-Stuck [] b = (refl, refl)
  process_round-Stuck ((msg, cell) ∷ ms) b =
      Post-then (Stuck b.new_messages) (Stuck b.new_messages)
        (process_new e x config msg cell true b) _ (process_new-Stuck msg cell b)
        λ full b' (f, w).
          subst (λ g. Post (Stuck b.new_messages) (process_round e x config ms g b')) (sym f)
            (subst (λ v. Post (Stuck v) (process_round e x config ms true b')) w
              (process_round-Stuck ms b'))

  -- In sequential mode a block that stays open has executed nothing, so it has got no new message.
  abbrev Open : List (Message × e.Cell) → Bool → BlockBuilder e x → Type 0
  Open ms full b = Single e x config full b × Waiting ms full b

  executed-Waiting :
      (ms : List (Message × e.Cell)) (r : NodeResult (Unit {0}) × BlockBuilder e x)
      → Single e x config true r.1
      → r.1.total_message_processed ≡ 1
      → Post (Waiting ms) (continue r.0 (λ _ b'. (ok (false || is_limits_reached e x b'), b')) r.1)
  executed-Waiting ms (ok u, b) (m, h, z) one =
      λ room. ground (arith, one, (limits_of_one e x config b m h).2 room)
  executed-Waiting ms (err error, b) s one = tt
  executed-Waiting ms (panic, b) s one = tt

  deliver_new-Waiting :
      (inside full : Bool) (msg : Message) (lt : ℕ) (env : x.Envelope) (acc_id : AccountId)
      (c d : e.Cell) (b : BlockBuilder e x)
      → Single e x config full b
      → Post (Waiting b.new_messages) (deliver_new e x config inside full msg lt env acc_id c d b)
  unfolding deliver_new
  deliver_new-Waiting false full msg lt env acc_id c d b s =
      ground (arith, enqueue_new-waiting lt env acc_id c d b)
  deliver_new-Waiting true true msg lt env acc_id c d b s =
      ground (arith, enqueue_new-waiting lt env acc_id c d b)
  deliver_new-Waiting true false msg lt env acc_id c d b s =
      executed-Waiting b.new_messages (execute e x msg config acc_id b)
        (execute-Single e x config msg acc_id false b refl s)
        (ap (λ c. c.1) (execute-counted e x msg config acc_id b)
          ∙ ap (λ k. (k + 1) % 2 ^ 64) (s.2 refl))

  process_new-Waiting :
      (msg : Message) (cell : e.Cell) (full : Bool) (b : BlockBuilder e x)
      → Single e x config full b
      → Post (Waiting b.new_messages) (process_new e x config msg cell full b)
  unfolding process_new
  process_new-Waiting msg cell full b s = grind (arith, deliver_new-Waiting)

  Fills-Post :
      (ms : List (Message × e.Cell)) (r : NodeResult Bool × BlockBuilder e x)
      → Fills e x config (λ f. f) r
      → Post (Waiting ms) r
      → Post (Open ms) r
  Fills-Post ms (ok f, b) s w = (s, w)
  Fills-Post ms (err error, b) s w = tt
  Fills-Post ms (panic, b) s w = tt

  process_round-Open :
      (ms : List (Message × e.Cell)) (full : Bool) (b : BlockBuilder e x)
      → Single e x config full b
      → Post (Waiting b.new_messages) (process_round e x config ms full b)
  unfolding process_round
  process_round-Open [] full b s = λ _. refl
  process_round-Open ((msg, cell) ∷ ms) full b s =
      Post-then (Open b.new_messages) (Waiting b.new_messages)
        (process_new e x config msg cell full b) _
        (Fills-Post b.new_messages (process_new e x config msg cell full b)
          (process_new-Fills e x config msg cell full b s) (process_new-Waiting msg cell full b s))
        λ full' b' (s', w). elim (Bool-cases full') [
          | inl stuck ↦
              subst (λ g. Post (Waiting b.new_messages) (process_round e x config ms g b'))
                (sym stuck)
                (Post-map (Stuck b'.new_messages) (Waiting b.new_messages)
                  (process_round e x config ms true b') (process_round-Stuck ms b')
                  λ g b'' (t, w') no. ground (arith, t, no))
          | inr room ↦
              subst (λ v. Post (Waiting v) (process_round e x config ms full' b')) (w room)
                (process_round-Open ms full' b' s')
        ]

  -- With no new message there is no round.
  no_round :
      (m n : ℕ) (ms : List (Message × e.Cell)) (flags : Flags) (b : BlockBuilder e x)
      → ms ≡ []
      → process_rounds e x config m ms flags b ≡ process_rounds e x config n ms flags b
  unfolding process_rounds
  no_round m n [] flags b h = refl
  no_round m n (_ ∷ ms) flags b h = cc

  continue-agree :
      {A B : Type 0} (r : NodeResult A × BlockBuilder e x)
      (f g : A → BlockBuilder e x → NodeResult B × BlockBuilder e x)
      → Post (λ a s. f a s ≡ g a s) r
      → continue r.0 f r.1 ≡ continue r.0 g r.1
  continue-agree (ok a, b) f g h = h
  continue-agree (err error, b) f g h = refl
  continue-agree (panic, b) f g h = refl

  -- One round is all for a full block.
  pub process_rounds-full :
      (n : ℕ) (ms : List (Message × e.Cell)) (flags : Flags) (b : BlockBuilder e x)
      → flags.block_full ≡ true
      → process_rounds e x config (suc n) ms flags b ≡ process_rounds e x config 1 ms flags b
  unfolding process_rounds
  process_rounds-full n [] flags b h = refl
  process_rounds-full n (m ∷ ms) flags b h =
      continue-agree
        (process_round e x config (m ∷ ms) flags.block_full (record b { new_messages = [] })) _ _
        (subst
          (λ full.
            Post
              (λ full' b'.
                process_rounds e x config n b'.new_messages
                  (record { is_empty = false; block_full = full' }) b'
                ≡ process_rounds e x config 0 b'.new_messages
                    (record { is_empty = false; block_full = full' }) b')
              (process_round e x config (m ∷ ms) full (record b { new_messages = [] })))
          (sym h)
          (Post-map (Stuck []) _
            (process_round e x config (m ∷ ms) true (record b { new_messages = [] }))
            (process_round-Stuck (m ∷ ms) (record b { new_messages = [] }))
            λ full' b' (f, w). no_round n 0 b'.new_messages _ b' w))

  -- In sequential mode a second round finds the block full or no new message.
  second_round :
      (n : ℕ) (full : Bool) (b : BlockBuilder e x)
      → Waiting [] full b
      → process_rounds e x config
          (suc n)
          b.new_messages
          (record { is_empty = false; block_full = full })
          b
        ≡ process_rounds e x config 1 b.new_messages
            (record { is_empty = false; block_full = full })
            b
  second_round n true b w = process_rounds-full n b.new_messages _ b refl
  second_round n false b w = no_round (suc n) 1 b.new_messages _ b (w refl)

  pub process_rounds-sequential :
      (n : ℕ) (ms : List (Message × e.Cell)) (flags : Flags) (b : BlockBuilder e x)
      → Single e x config flags.block_full b
      → process_rounds e x config (suc (suc n)) ms flags b ≡ process_rounds e x config 2 ms flags b
  unfolding process_rounds
  process_rounds-sequential n [] flags b s = refl
  process_rounds-sequential n (m ∷ ms) flags b s =
      continue-agree
        (process_round e x config (m ∷ ms) flags.block_full (record b { new_messages = [] })) _ _
        (Post-map (Waiting []) _
          (process_round e x config (m ∷ ms) flags.block_full (record b { new_messages = [] }))
          (process_round-Open (m ∷ ms) flags.block_full (record b { new_messages = [] }) s)
          λ full b' w. second_round n full b' w)
