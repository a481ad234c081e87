-- ===== src/Log/Commit.antt =====
-- `commit_trans` (log.c) is atomic: whatever number of its disk writes reach the disk, recovery
-- brings back either the disk from before the transaction or all of the transaction's writes.
use zv.Prelude.{
  ℕ, zero, suc, ◌+◌, ◌-◌, ◌<◌, ◌≡◌, ◌≢◌, refl, sym, ◌∙◌, ◌⊎◌, inl, inr, false, arith, ==_iff, ltb,
  ℕ_discrete, Bool-cases,
}
use zv.Block.{Block, get_word}
use zv.Disk.{Store, bread, bwrite}
use zv.Log.{Log, install_loop, write_head, install_trans, commit_trans}
use zv.Log.Header.{header, header_n, header_sector}
use zv.Log.Replay.{replay, replay_cong, replay_entry}
use zv.Log.Install.{logged}
use zv.Log.Finish.{
  Recoverable, Committed, finish, finish-Recoverable, finish_done, finish-view, finish_no_power,
}
use zv.Log.Transaction.{Quiet, Logging}

-- An empty log: nothing is replayed.
clean-Recoverable :
    (d0 d : ℕ → Block) (start : ℕ)
    → get_word (d start) 0 ≡ 0
    → ((x : ℕ) → x < start → d x ≡ d0 x)
    → Recoverable d0 start d
unfolding replay
clean-Recoverable d0 d start e same = record {
  small = omega arith;
  homes = λ j lt. absurd (omega arith);
  replays = λ x lt. rw e (same x lt);
}

-- The installation writes to the cache what the cache already shows.
install_loop-view_kept :
    (l : Log) (pay : ℕ → Block) (k t n : ℕ) (s : Store) (x : ℕ)
    → t + k ≡ n
    → ((j : ℕ) → j < n → l.sector j < l.start)
    → ((j : ℕ) → j < n → logged l.start s.view j ≡ pay j)
    → ((j : ℕ) → j < n → s.view (l.sector j) ≡ pay j)
    → (install_loop k t l s).view x ≡ s.view x
unfolding install_loop bwrite bread
install_loop-view_kept l pay zero t n s x e homes reads shown = refl
install_loop-view_kept l pay (suc k) t n s x e homes reads shown =
    install_loop-view_kept l pay k (suc t) n _ x (omega arith) homes
      (λ j lt. ground (arith, homes t (omega arith), reads j lt))
      (λ j lt. ground (arith, reads t (omega arith), shown j lt, shown t (omega arith)))
    ∙ ground (arith, reads t (omega arith), shown t (omega arith))

module _ {d0 : ℕ → Block} {l : Log} {s : Store} (g : Logging d0 l s) where
  -- The log's blocks, once the header is out.
  abbrev s1 : Store
  s1 = write_head l s

  idle-Recoverable : Recoverable d0 l.start s.disk
  idle-Recoverable = clean-Recoverable d0 s.disk l.start g.clean g.disk

  write_head-other : (x : ℕ) → x ≢ l.start → (s1.view x ≡ s.view x) × (s1.disk x ≡ s.disk x)
  unfolding write_head bwrite
  write_head-other x ne = ground arith

  write_head-power : s1.power ≡ s.power - 1
  unfolding write_head bwrite
  write_head-power = refl

  write_head_start : s.power ≢ 0 → s1.disk l.start ≡ header l (s.view l.start)
  unfolding write_head bwrite bread
  write_head_start alive = ground (arith, ==_iff l.start l.start)

  dead-Recoverable : s.power ≡ 0 → Recoverable d0 l.start (finish l s1).disk
  unfolding write_head bwrite
  dead-Recoverable dead =
      let same : (x : ℕ) → (finish l s1).disk x ≡ s.disk x =
        λ x. finish_no_power l s1 x (omega arith) ∙ rw dead in
      clean-Recoverable d0 (finish l s1).disk l.start (rw (same l.start) g.clean)
        (λ x lt. same x ∙ g.disk x lt)

  kept : s.power ≢ 0 → (j : ℕ) → j < l.n → s.view (l.start + j + 1) ≡ s.disk (l.start + j + 1)
  kept alive = elim g.durable [ inl dead ↦ absurd (alive dead) | inr k ↦ k ]

  alive-Committed : s.power ≢ 0 → Committed s.view l s1
  alive-Committed alive = record {
    small = g.small;
    homes = g.homes;
    head_n = rw (write_head_start alive) (header_n l (s.view l.start) (omega (arith, g.small)));
    head_sector = λ j lt.
        rw (write_head_start alive)
          (header_sector l (s.view l.start) j lt (omega (arith, g.homes j lt, g.room)));
    reads = λ j lt.
        let other = write_head-other (l.start + j + 1) (omega arith) in
        other.0 ∙ kept alive j lt ∙ sym other.1;
    replays = λ x lt.
        replay_cong l.n l.sector l.sector _ (logged l.start s.view) _ d0 x (λ j b. refl)
          (λ j b. (write_head-other (l.start + j + 1) (omega arith)).1 ∙ sym (kept alive j b))
          ((write_head-other x (omega arith)).1 ∙ g.disk x lt)
        ∙ sym (g.view x lt);
  }

-- The writes of a transaction are all recovered or none of them, wherever the commit is cut short.
pub commit_trans_atomic :
    (d0 : ℕ → Block) (l : Log) (s : Store)
    → Logging d0 l s
    → Recoverable d0 l.start (commit_trans l s).1.disk
      ⊎ Recoverable s.view l.start (commit_trans l s).1.disk
unfolding commit_trans finish
commit_trans_atomic d0 l s g = elim (Bool-cases (ltb 0 l.n)) [
  | inr none_logged ↦ inl (rw none_logged (idle-Recoverable g))
  | inl some_logged ↦ elim (ℕ_discrete s.power 0) [
    | yes dead ↦ inl (rw some_logged (dead-Recoverable g dead))
    | no alive ↦ inr (rw some_logged (finish-Recoverable (alive-Committed g alive)))
  ]
]

module _ {d0 : ℕ → Block} {l : Log} {s : Store} (g : Logging d0 l s) where
  -- Each log block holds what the cache shows at its entry's sector.
  shown : (j : ℕ) → j < l.n → s.view (l.sector j) ≡ logged l.start s.view j
  shown j lt = g.view (l.sector j) (g.homes j lt) ∙ replay_entry l.n j l.sector _ d0 lt g.distinct

  install-view : (x : ℕ) → (install_trans l (s1 g)).view x ≡ (s1 g).view x
  unfolding install_trans
  install-view x =
      install_loop-view_kept l (logged l.start s.view) l.n 0 l.n (s1 g) x (omega arith) g.homes
        (λ j lt. (write_head-other g (l.start + j + 1) (omega arith)).0)
        (λ j lt.
          (write_head-other g (l.sector j) (λ e. omega (arith, g.homes j lt))).0 ∙ shown j lt)

  commit-view : (x : ℕ) → x < l.start → (finish l (s1 g)).view x ≡ s.view x
  commit-view x lt =
      finish-view l (s1 g) x (omega arith) ∙ install-view x ∙ (write_head-other g x (omega arith)).0

  commit_done :
      l.n + 1 < s.power
      → ((x : ℕ) → x < l.start → (finish l (s1 g)).disk x ≡ s.view x)
        × (get_word ((finish l (s1 g)).disk l.start) 0 ≡ 0)
  commit_done h =
      finish_done (alive-Committed g (λ e. omega arith)) (omega (arith, write_head-power g))

  committed-Quiet : l.n + 1 < s.power → Quiet (record l { n = 0; busy = false }) (finish l (s1 g))
  committed-Quiet h = record {
    empty = refl;
    clean = (commit_done h).1;
    synced = λ x lt. commit-view x lt ∙ sym ((commit_done h).0 x lt);
  }

  unlogged-view : l.n ≡ 0 → (x : ℕ) → x < l.start → s.view x ≡ s.disk x
  unfolding replay
  unlogged-view e x lt = g.view x lt ∙ rw e (sym (g.disk x lt))

  unlogged-Quiet : l.n ≡ 0 → Quiet (record l { busy = false }) s
  unlogged-Quiet e = record { empty = e; clean = g.clean; synced = unlogged-view e }

-- With power for all its writes a commit leaves the log idle and empty, the home sectors on the disk
-- as the transaction made them, and the cache in step with the disk.
pub commit_trans-Quiet :
    (d0 : ℕ → Block) (l : Log) (s : Store)
    → Logging d0 l s
    → l.n + 1 < s.power
    → Quiet (commit_trans l s).0 (commit_trans l s).1
      × ((commit_trans l s).0.busy ≡ false)
      × ((x : ℕ) → x < l.start → (commit_trans l s).1.disk x ≡ s.view x)
unfolding commit_trans finish
commit_trans-Quiet d0 l s g h = elim (Bool-cases (ltb 0 l.n)) [
  | inl some_logged ↦ rw some_logged (committed-Quiet g h, refl, (commit_done g h).0)
  | inr none_logged ↦
      let e : l.n ≡ 0 = ground arith in
      rw none_logged (unlogged-Quiet g e, refl, λ x lt. sym (unlogged-view g e x lt))
]
