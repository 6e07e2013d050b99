-- ===== src/Engine/Messages/Extract.antt =====
-- `dequeue` takes out the first message of the workchain.
use evernode_se.Common.{
  ◌<◌, subst, sym, ◌∙◌, ℕ, ◌+◌, ◌≡◌, refl, ap, inl, inr, Option, none, some, List, [], ◌∷◌, ◌++◌,
  arith, length, length-append, get_elem?, erase_idx, if◌then◌else◌, Bool-cases,
}
use evernode_se.Common.Int.{ℤ}
use evernode_se.Engine.Messages.{InMessagesQueue, is_for, scan, dequeue}
use mathlib.Core.List.{append_assoc}

module _ {M : Type 0} (workchain_id : M → Option ℤ) where
  -- The first message of the workchain and the others, in their order.
  abbrev pub extract : ℤ → List M → Option M × List M
  extract w [] = (none, [])
  extract w (m ∷ ms) =
      if is_for w (workchain_id m) then (some m, ms) else ((extract w ms).0, m ∷ (extract w ms).1)

module _ {M : Type 0} where
  get_elem?-middle :
      (pre : List M) (m : M) (ms : List M) → get_elem? (pre ++ m ∷ ms) (length pre) ≡ some m
  get_elem?-middle [] m ms = refl
  get_elem?-middle (x ∷ pre) m ms = get_elem?-middle pre m ms

  erase_idx-middle :
      (pre : List M) (m : M) (ms : List M) → erase_idx (pre ++ m ∷ ms) (length pre) ≡ pre ++ ms
  erase_idx-middle [] m ms = refl
  erase_idx-middle (x ∷ pre) m ms = ap (◌∷◌ x) (erase_idx-middle pre m ms)

module _ {M : Type 0} (workchain_id : M → Option ℤ) where
  scan-extract :
      (w : ℤ) (pre ms : List M) (i : ℕ)
      → i ≡ length pre
      → scan workchain_id (length ms) i w (pre ++ ms)
        ≡ ((extract workchain_id w ms).0, pre ++ (extract workchain_id w ms).1)
  unfolding scan
  scan-extract w pre [] i e = refl
  scan-extract w pre (m ∷ ms) i e =
      let next : scan workchain_id (length ms) (i + 1) w (pre ++ m ∷ ms)
          ≡ ((extract workchain_id w ms).0, pre ++ m ∷ (extract workchain_id w ms).1) =
        simp append_assoc at (
          scan-extract w (pre ++ m ∷ []) ms (i + 1)
            (omega (arith, length-append {0} pre (m ∷ [])))) in
      elim (Bool-cases (is_for w (workchain_id m))) [
        | inl wanted ↦ rw (e, get_elem?-middle pre m ms, wanted, erase_idx-middle pre m ms)
        | inr other ↦ rw (e, get_elem?-middle pre m ms, other, ← e) next
      ]

  pub dequeue-extract :
      (w : ℤ) (q : InMessagesQueue M)
      → dequeue workchain_id w q ≡ (
        (extract workchain_id w q.storage).0,
        record q { storage = (extract workchain_id w q.storage).1 },
      )
  unfolding dequeue
  dequeue-extract w q = rw (scan-extract w [] q.storage 0 refl)

  extract-shorter :
      (w : ℤ) (ms : List M) {m : M}
      → (extract workchain_id w ms).0 ≡ some m
      → length (extract workchain_id w ms).1 < length ms
  extract-shorter w [] h = cc
  extract-shorter w (n ∷ ms) {m = m} h = ground (arith, extract-shorter w ms {m = m})

  -- A call that finds a message leaves fewer.
  pub dequeue-shorter :
      (w : ℤ) (q : InMessagesQueue M) {m : M}
      → (dequeue workchain_id w q).0 ≡ some m
      → length (dequeue workchain_id w q).1.storage < length q.storage
  dequeue-shorter w q h =
      subst (λ r. length r.1.storage < length q.storage) (sym (dequeue-extract w q))
        (extract-shorter w q.storage (sym (ap (λ r. r.0) (dequeue-extract w q)) ∙ h))
