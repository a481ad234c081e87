-- ===== src/Log/Install.antt =====
-- The installation loop of `install_trans` (log.c) with any amount of power: how far it gets, and
-- what it leaves on the disk and in the cache.
use zv.Prelude.{ℕ, zero, suc, ◌+◌, ◌-◌, ◌≤◌, ◌<◌, ◌≡◌, refl, ◌∙◌, arith, ℕ_discrete}
use zv.Block.{Block}
use zv.Disk.{Store, bread, bwrite}
use zv.Log.{Log, install_loop}
use zv.Log.Replay.{replay}

-- The log blocks, as they stand in `f`.
abbrev pub logged : ℕ → (ℕ → Block) → ℕ → Block
logged start f j = f (start + j + 1)

module _ (l : Log) where
  pub install_loop-power : (k t : ℕ) (s : Store) → (install_loop k t l s).power ≡ s.power - k
  unfolding install_loop bwrite
  install_loop-power zero t s = omega arith
  install_loop-power (suc k) t s = omega (arith, install_loop-power k (suc t) (bwrite s _ _))

  -- The log's own blocks are not written.
  pub install_loop-view :
      (k t n : ℕ) (s : Store) (y : ℕ)
      → t + k ≡ n
      → ((j : ℕ) → j < n → l.sector j < l.start)
      → l.start ≤ y
      → (install_loop k t l s).view y ≡ s.view y
  unfolding install_loop bwrite
  install_loop-view zero t n s y e homes le = refl
  install_loop-view (suc k) t n s y e homes le =
      install_loop-view k (suc t) n _ y (omega arith) homes le
      ∙ ground (arith, homes t (omega arith))

  -- With no power left nothing reaches the disk.
  pub install_loop-dead :
      (k t : ℕ) (s : Store) (x : ℕ) → s.power ≡ 0 → (install_loop k t l s).disk x ≡ s.disk x
  unfolding install_loop bwrite
  install_loop-dead zero t s x p = refl
  install_loop-dead (suc k) t s x p = install_loop-dead k (suc t) _ x (omega arith) ∙ rw p

  -- How far an installation gets, and what it leaves on the disk.
  pub install_loop-disk :
      (k t n : ℕ) (s : Store) (pay d0 : ℕ → Block)
      → t + k ≡ n
      → ((j : ℕ) → j < n → l.sector j < l.start)
      → ((j : ℕ) → j < n → logged l.start s.view j ≡ pay j)
      → ((x : ℕ) → s.disk x ≡ replay t l.sector pay d0 x)
      → (m : ℕ) × (m ≤ n)
        × ((x : ℕ) → (install_loop k t l s).disk x ≡ replay m l.sector pay d0 x)
        × (k ≤ s.power → m ≡ n)
  unfolding install_loop bwrite bread replay
  install_loop-disk zero t n s pay d0 e homes reads disk = (t, omega arith, disk, λ _. omega arith)
  install_loop-disk (suc k) t n s pay d0 e homes reads disk = elim (ℕ_discrete s.power 0) [
    | yes dead ↦ (
      t,
      omega arith,
      (λ x. install_loop-dead k (suc t) _ x (omega arith) ∙ rw dead (disk x)),
      λ h. absurd (omega arith),
    )
    | no alive ↦
        let s' : Store = bwrite s (l.sector t) (s.view (l.start + t + 1)) in
        let (m, le, d, full) =
          install_loop-disk k (suc t) n s' pay d0 (omega arith) homes
            (λ j lt. ground (arith, homes t (omega arith), reads j lt))
            (λ x. ground (arith, alive, disk x, reads t (omega arith))) in
        (m, le, d, λ h. full (omega arith))
  ]
