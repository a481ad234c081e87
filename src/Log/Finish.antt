-- ===== src/Log/Finish.antt =====
-- From the commit point on (log.c): `install_trans` and the `write_head` that erases the log, as they
-- end both `commit_trans` and `recover_from_log`.
use zv.Prelude.{ℕ, ◌+◌, ◌-◌, ◌≤◌, ◌<◌, ◌≡◌, ◌≢◌, refl, ◌∙◌, arith, ==_iff, ℕ_discrete}
use zv.Block.{Block, get_word, get_word-set_word_self}
use zv.Disk.{Store, bread, bwrite}
use zv.Log.{Log, log_size, install_loop, install_trans, write_head, write_sectors}
use zv.Log.Replay.{replay, replay_cong, replay_again, replay_other}
use zv.Log.Install.{logged, install_loop-power, install_loop-dead, install_loop-disk}

-- The disk `d` holds a committed log (or an empty one) whose replay gives `target` at every home
-- sector.
pub record Recoverable (target : ℕ → Block) (start : ℕ) (d : ℕ → Block) : Type 0 where
  pub small : get_word (d start) 0 ≤ log_size
  pub homes : (j : ℕ) → j < get_word (d start) 0 → get_word (d start) (j + 1) < start
  pub replays :
      (x : ℕ)
      → x < start
      → replay (get_word (d start) 0) (λ j. get_word (d start) (j + 1)) (logged start d) d x
        ≡ target x

pub retarget :
    {target target' d : ℕ → Block} {start : ℕ}
    → Recoverable target start d
    → ((x : ℕ) → x < start → target x ≡ target' x)
    → Recoverable target' start d
retarget r same = record {
  small = r.small;
  homes = r.homes;
  replays = λ x lt. r.replays x lt ∙ same x lt;
}

-- A store between the commit point and the end of the installation.
pub record Committed (target : ℕ → Block) (l : Log) (s : Store) : Type 0 where
  pub small : l.n ≤ log_size
  pub homes : (j : ℕ) → j < l.n → l.sector j < l.start
  pub head_n : get_word (s.disk l.start) 0 ≡ l.n
  pub head_sector : (j : ℕ) → j < l.n → get_word (s.disk l.start) (j + 1) ≡ l.sector j
  pub reads : (j : ℕ) → j < l.n → s.view (l.start + j + 1) ≡ s.disk (l.start + j + 1)
  pub replays :
      (x : ℕ) → x < l.start → replay l.n l.sector (logged l.start s.disk) s.disk x ≡ target x

-- The end of `recover_from_log` and of `commit_trans`.
unfoldable pub finish : Log → Store → Store
finish l s = write_head (record l { n = 0 }) (install_trans l s)

finish-other :
    (l : Log) (s : Store) (x : ℕ) → x ≢ l.start → (finish l s).disk x ≡ (install_trans l s).disk x
unfolding finish write_head bwrite
finish-other l s x ne = ground arith

pub finish-view :
    (l : Log) (s : Store) (x : ℕ) → x ≢ l.start → (finish l s).view x ≡ (install_trans l s).view x
unfolding finish write_head bwrite
finish-view l s x ne = ground arith

finish_dead :
    (l : Log) (s : Store)
    → (install_trans l s).power ≡ 0
    → (finish l s).disk l.start ≡ (install_trans l s).disk l.start
unfolding finish write_head bwrite
finish_dead l s p = rw p

pub finish_no_power : (l : Log) (s : Store) (x : ℕ) → s.power ≡ 0 → (finish l s).disk x ≡ s.disk x
unfolding finish write_head bwrite install_trans
finish_no_power l s x p =
    let q : (install_loop l.n 0 l s).power ≡ 0 = omega (arith, install_loop-power l l.n 0 s) in
    rw q (install_loop-dead l l.n 0 s x p)

finish_head :
    (l : Log) (s : Store)
    → (install_trans l s).power ≢ 0
    → get_word ((finish l s).disk l.start) 0 ≡ 0
unfolding finish write_head write_sectors bwrite bread
finish_head l s p =
    ground
      (arith, get_word-set_word_self ((install_trans l s).view l.start) 0 0, ==_iff l.start l.start)

module _ {target : ℕ → Block} {l : Log} {s : Store} (c : Committed target l s) where
  installed :
      (m : ℕ) × (m ≤ l.n)
      × ((x : ℕ) → (install_trans l s).disk x ≡ replay m l.sector (logged l.start s.disk) s.disk x)
      × (l.n ≤ s.power → m ≡ l.n)
  unfolding install_trans replay
  installed =
      install_loop-disk l l.n 0 l.n s (logged l.start s.disk) s.disk (omega arith) c.homes c.reads
        (λ x. refl)

  power_left : (install_trans l s).power ≡ s.power - l.n
  unfolding install_trans
  power_left = install_loop-power l l.n 0 s

  -- Outside the home sectors nothing is replayed.
  replay_log :
      (m y : ℕ)
      → m ≤ l.n
      → l.start ≤ y
      → replay m l.sector (logged l.start s.disk) s.disk y ≡ s.disk y
  replay_log m y le h =
      replay_other m l.sector _ s.disk y (λ j lt e. omega (arith, c.homes j (omega arith)))

  -- The home sectors after an installation that got through.
  finish_home : l.n ≤ s.power → (x : ℕ) → x < l.start → (finish l s).disk x ≡ target x
  finish_home h x lt =
      let (m, le, d, full) = installed in
      finish-other l s x (omega arith) ∙ d x ∙ rw (full h) (c.replays x lt)

  dead-Recoverable : (install_trans l s).power ≡ 0 → Recoverable target l.start (finish l s).disk
  dead-Recoverable dead =
      let (m, le, d, full) = installed in
      let e : (finish l s).disk l.start ≡ s.disk l.start =
        finish_dead l s dead ∙ d l.start ∙ replay_log m l.start le (omega arith) in
      let n_eq : get_word ((finish l s).disk l.start) 0 ≡ l.n = rw e c.head_n in
      record {
        small = rw n_eq c.small;
        homes =
            λ j lt. let lt' : j < l.n = omega arith in rw (e, c.head_sector j lt') (c.homes j lt');
        replays = λ x lt. rw n_eq (
            replay_cong l.n _ l.sector _ (logged l.start s.disk) _
              (replay m l.sector (logged l.start s.disk) s.disk) x (λ j b. rw e (c.head_sector j b))
              (λ j b.
                finish-other l s (l.start + j + 1) (omega arith)
                ∙ d (l.start + j + 1)
                ∙ replay_log m (l.start + j + 1) le (omega arith))
              (finish-other l s x (omega arith) ∙ d x)
            ∙ replay_again l.n m l.sector _ s.disk x le
            ∙ c.replays x lt);
      }

  alive-Recoverable : (install_trans l s).power ≢ 0 → Recoverable target l.start (finish l s).disk
  unfolding replay
  alive-Recoverable alive =
      let e = finish_head l s alive in
      record {
        small = omega (arith, e);
        homes = λ j lt. absurd (omega arith);
        replays = λ x lt. rw e (finish_home (omega (arith, power_left)) x lt);
      }

  -- Cut short or not, it leaves a disk with the same result.
  pub finish-Recoverable : Recoverable target l.start (finish l s).disk
  finish-Recoverable = elim (ℕ_discrete (install_trans l s).power 0) [
    | yes dead ↦ dead-Recoverable dead
    | no alive ↦ alive-Recoverable alive
  ]

  -- With power for all its writes, it is all done.
  pub finish_done :
      l.n < s.power
      → ((x : ℕ) → x < l.start → (finish l s).disk x ≡ target x)
        × (get_word ((finish l s).disk l.start) 0 ≡ 0)
  finish_done h = (finish_home (omega arith), finish_head l s (λ e. omega (arith, power_left)))
