-- ===== src/Log/Atomic.antt =====
-- Whole transactions of log.c, from `begin_trans` to recovery after a power failure.
use zv.Prelude.{
  ℕ, ◌<◌, ◌≡◌, refl, ◌∙◌, ◌⊎◌, inl, inr, true, arith, update, List, [], ◌∷◌, subst, ok,
  bind_returns,
}
use zv.Block.{Block, get_word}
use zv.Disk.{Store}
use zv.Log.{Log, log_size, begin_trans, commit_trans}
use zv.Log.Finish.{Recoverable, retarget}
use zv.Log.Recovery.{recovered, recoveries, recoveries-Recoverable, recovered_done}
use zv.Log.Transaction.{
  write_block, write_blocks, Quiet, Logging, begin_trans_cases, started-Logging,
}
use zv.Log.Append.{write_block-Logging}
use zv.Log.Commit.{commit_trans_atomic}

-- The disk with the blocks written to it in order: what a transaction is to do.
pub overwritten : List (ℕ × Block) → (ℕ → Block) → ℕ → Block
overwritten [] d = d
overwritten ((x, b) ∷ ws) d = overwritten ws (update d x b)

-- The writes go to home sectors.
abbrev pub AtHome : ℕ → List (ℕ × Block) → Type 0
AtHome start [] = Unit {0}
AtHome start ((x, b) ∷ ws) = (x < start) × AtHome start ws

overwritten_cong :
    (ws : List (ℕ × Block)) (d d' : ℕ → Block) (start : ℕ)
    → ((x : ℕ) → x < start → d x ≡ d' x)
    → (x : ℕ) → x < start
    → overwritten ws d x ≡ overwritten ws d' x
unfolding overwritten
overwritten_cong [] d d' start h x lt = h x lt
overwritten_cong ((y, b) ∷ ws) d d' start h x lt =
    overwritten_cong ws (update d y b) (update d' y b) start (λ z b. ground (arith, h z b)) x lt

-- Every accepted sequence of block writes keeps the invariant, and the cache shows them all.
pub write_blocks-Logging :
    (d0 : ℕ → Block) (ws : List (ℕ × Block)) (l : Log) (s : Store) (r : Log × Store)
    → Logging d0 l s
    → AtHome l.start ws
    → write_blocks l s ws ≡ ok r
    → Logging d0 r.0 r.1
      × (r.0.start ≡ l.start)
      × ((x : ℕ) → x < l.start → r.1.view x ≡ overwritten ws s.view x)
unfolding write_blocks overwritten
write_blocks-Logging d0 [] l s r g home e =
    let q : r ≡ (l, s) = ground arith in rw q (g, refl, λ x lt. refl)
write_blocks-Logging d0 ((x, b) ∷ ws) l s r g home e =
    let (q, rest, first) = bind_returns (write_block l s x b) _ e in
    let (g', same, shown) = write_block-Logging d0 l s x b q g home.0 first in
    let (g'', same', shown') = write_blocks-Logging d0 ws q.0 q.1 r g' (rw same home.1) rest in
    (
      g'',
      same' ∙ same,
      λ y lt.
          shown' y (rw same lt)
          ∙ overwritten_cong ws q.1.view (update s.view x b) l.start shown y lt,
    )

-- What a transaction leaves on the disk can be recovered to all or none of its writes.
committed_or_not :
    (l l1 : Log) (s : Store) (ws : List (ℕ × Block)) (r : Log × Store)
    → Quiet l s
    → l.start < 4294967296
    → AtHome l.start ws
    → begin_trans l ≡ ok l1
    → write_blocks l1 s ws ≡ ok r
    → Recoverable s.disk l.start (commit_trans r.0 r.1).1.disk
      ⊎ Recoverable (overwritten ws s.disk) l.start (commit_trans r.0 r.1).1.disk
committed_or_not l l1 s ws r q room home begun written =
    let l1' : Log = record l { busy = true } in
    let e : write_blocks l1' s ws ≡ ok r = rw (← (begin_trans_cases l l1 begun).1) written in
    let (g, same, shown) = write_blocks-Logging s.disk ws l1' s r (started-Logging q room) home e in
    elim (commit_trans_atomic s.disk r.0 r.1 g) [
      | inl none_made ↦
          inl (subst (λ k. Recoverable s.disk k (commit_trans r.0 r.1).1.disk) same none_made)
      | inr all_made ↦ inr (
          retarget (subst (λ k. Recoverable r.1.view k (commit_trans r.0 r.1).1.disk) same all_made)
            (λ x lt. shown x lt ∙ overwritten_cong ws s.view s.disk l.start q.synced x lt))
    ]

-- A transaction is atomic across power failures.  From a quiet log, let `begin_trans` succeed, let a
-- sequence of block writes at home sectors be accepted, and let `commit_trans` run; let the power
-- fail after any number of disk writes of these, and again after any number of writes of each of
-- any sequence of recoveries; let a last recovery have power for more than LOGSIZE writes.  Then the
-- home sectors hold either what they held before the transaction, all of them, or that with all the
-- writes made, and the log is empty.
pub transaction_atomic :
    (l l1 : Log) (s : Store) (ws : List (ℕ × Block)) (r : Log × Store) (ps : List ℕ) (p : ℕ)
    → Quiet l s
    → l.start < 4294967296
    → AtHome l.start ws
    → begin_trans l ≡ ok l1
    → write_blocks l1 s ws ≡ ok r
    → log_size < p
    → (((x : ℕ)
          → x < l.start
          → recovered l (recoveries l (commit_trans r.0 r.1).1.disk ps) p x ≡ s.disk x)
        ⊎ ((x : ℕ)
            → x < l.start
            → recovered l (recoveries l (commit_trans r.0 r.1).1.disk ps) p x
              ≡ overwritten ws s.disk x))
      × (get_word (recovered l (recoveries l (commit_trans r.0 r.1).1.disk ps) p l.start) 0 ≡ 0)
transaction_atomic l l1 s ws r ps p q room home begun written enough =
    let ends =
      λ (target : ℕ → Block) (c : Recoverable target l.start (commit_trans r.0 r.1).1.disk).
        recovered_done target _ l p (recoveries-Recoverable target _ l ps c) enough in
    elim (committed_or_not l l1 s ws r q room home begun written) [
      | inl none_made ↦ (inl (ends s.disk none_made).0, (ends s.disk none_made).1)
      | inr all_made ↦ (inr (ends (overwritten ws s.disk) all_made).0, (ends _ all_made).1)
    ]
