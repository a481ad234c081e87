-- ===== src/Sysfile/Making.antt =====
-- sysfile.c: `sys_mkdir`, `sys_mknod`, `sys_chdir` and `sys_duplicate` keep the reference counts.
use zv.Prelude.{
  ℕ, zero, suc, ◌+◌, ◌-◌, ◌%◌, ◌≡◌, arith, true, false, not, ◌==◌, ltb, min, Option, none, some, ok,
  ℤ, pos, negsuc, to_int,
}
use zv.Fs.Content.{t_dev}
use zv.Fs.Ilock.{e_corrupted}
use zv.Fs.Directory.{t_dir}
use zv.Fs.Namex.{Env}
use zv.Files.{Kernel, K, pure, ◌>>=◌}
use zv.Files.Io.{is_corrupted, write_max}
use zv.Sysfile.Calls.{finish_make, sys_mkdir, sys_mknod, set_cwd, chdir, sys_chdir}
use zv.Sysfile.Ditto.{
  propagate_to, propagate_loop, ipropagate, give_first, give_second, spread, duplicate,
  sys_duplicate,
}
use zv.Sysfile.Keeps.{
  Keeps, pure-Keeps, lift-Keeps, bind-Keeps, if-Keeps, option-Keeps, lift_then, ask_then,
}
use zv.Sysfile.Keeping.{namei-Keeps, create-Keeps, new_ditto-Keeps}

module _ (others : ℕ → ℕ) (env : Env) where
  finish_make-Keeps : (made : Option ℕ) → Keeps others (finish_make env made)
  unfolding finish_make
  finish_make-Keeps none = lift_then others _ (λ a. pure-Keeps others (negsuc 0))
  finish_make-Keeps (some ip) =
      lift_then others _ (λ a. lift_then others _ (λ b. pure-Keeps others (pos 0)))

  pub sys_mkdir-Keeps : Keeps others (sys_mkdir env)
  unfolding sys_mkdir
  sys_mkdir-Keeps = lift_then others _ (λ a. ask_then others _ (λ b.
      option-Keeps others b (finish_make-Keeps none)
        (λ path. bind-Keeps others (create-Keeps others env path.0 t_dir 0 0) finish_make-Keeps)))

  pub sys_mknod-Keeps : Keeps others (sys_mknod env)
  unfolding sys_mknod
  sys_mknod-Keeps = lift_then others _ (λ a. ask_then others _ (λ b. ask_then others _ (λ x.
      ask_then others _ (λ y. option-Keeps others b (finish_make-Keeps none) (λ path.
        option-Keeps others x (finish_make-Keeps none) (λ major.
          option-Keeps others y (finish_make-Keeps none) (λ minor.
            bind-Keeps others (create-Keeps others env path.0 t_dev (major % 65536) (minor % 65536))
              finish_make-Keeps)))))))

  set_cwd-Keeps : (ip : ℕ) → Keeps others (set_cwd ip >>= λ _. pure (pos 0))
  set_cwd-Keeps ip = record {
    keeps = λ s a t c e.
        let at : t ≡ record s { cwd = ip } = ground (arith, e) in
        rw at (record { counted = λ f. c.counted f });
  }

  cwd-Keeps :
      {f : ℕ → K ℤ}
      → ((d : ℕ) → Keeps others (f d))
      → Keeps others ((λ (s : Kernel). ok (s.cwd, s)) >>= f)
  cwd-Keeps h = record { keeps = λ s a t c e. (h s.cwd).keeps s a t c e }

  chdir-Keeps : (path : ℕ) → Keeps others (chdir env path)
  unfolding chdir
  chdir-Keeps path = bind-Keeps others (namei-Keeps others env true path) (λ found.
      option-Keeps others found (pure-Keeps others (negsuc 0)) (λ ip. lift_then others _ (λ r.
        if-Keeps others (is_corrupted r) (pure-Keeps others e_corrupted) (
          lift_then others _ (λ p.
            if-Keeps others (not (p.type == t_dir))
              (lift_then others _ (λ a. pure-Keeps others (negsuc 0)))
              (lift_then others _
                (λ a. cwd-Keeps (λ cwd. lift_then others _ (λ b. set_cwd-Keeps ip)))))))))

  pub sys_chdir-Keeps : Keeps others (sys_chdir env)
  unfolding sys_chdir
  sys_chdir-Keeps =
      ask_then others _
        (λ a. option-Keeps others a (pure-Keeps others (negsuc 0)) (λ path. chdir-Keeps path.0))

  propagate_to-Keeps : (ip inum off n1 : ℕ) → Keeps others (propagate_to env ip inum off n1)
  unfolding propagate_to
  propagate_to-Keeps ip inum off n1 = if-Keeps others (inum == 0) (pure-Keeps others tt) (
      lift_then others _
        (λ ic. lift_then others _ (λ r. lift_then others _ (λ a. lift-Keeps others _))))

  propagate_loop-Keeps : (fuel ip i n : ℕ) → Keeps others (propagate_loop fuel env ip i n)
  unfolding propagate_loop
  propagate_loop-Keeps zero ip i n = pure-Keeps others tt
  propagate_loop-Keeps (suc fuel) ip i n =
      if-Keeps others (ltb i n)
        (lift_then others _ (λ a. lift_then others _ (λ p.
          bind-Keeps others (propagate_to-Keeps ip p.child1 i (min (n - i) write_max)) (λ b.
            lift_then others _ (λ c. lift_then others _ (λ d. lift_then others _ (λ q.
              bind-Keeps others (propagate_to-Keeps ip q.child2 i (min (n - i) write_max)) (λ e.
                lift_then others _
                  (λ f. propagate_loop-Keeps fuel ip (i + min (n - i) write_max) n)))))))))
        (pure-Keeps others tt)

  give_first-Keeps : (ip : ℕ) (n : ℤ) → Keeps others (give_first ip n)
  unfolding give_first
  give_first-Keeps ip (negsuc k) = pure-Keeps others true
  give_first-Keeps ip (pos zero) = pure-Keeps others true
  give_first-Keeps ip (pos (suc k)) = lift_then others _ (λ p.
      if-Keeps others (not (p.child1 == 0)) (pure-Keeps others false) (
        bind-Keeps others (new_ditto-Keeps others env)
          (λ c. lift_then others _ (λ a. pure-Keeps others true))))

  give_second-Keeps : (ip : ℕ) (n : ℤ) → Keeps others (give_second ip n)
  unfolding give_second
  give_second-Keeps ip (negsuc k) = pure-Keeps others true
  give_second-Keeps ip (pos zero) = pure-Keeps others true
  give_second-Keeps ip (pos (suc zero)) = pure-Keeps others true
  give_second-Keeps ip (pos (suc (suc k))) = lift_then others _ (λ p.
      if-Keeps others (not (p.child2 == 0)) (pure-Keeps others false) (
        bind-Keeps others (new_ditto-Keeps others env)
          (λ c. lift_then others _ (λ a. pure-Keeps others true))))

  spread-Keeps : (ip : ℕ) → Keeps others (spread env ip)
  unfolding spread ipropagate
  spread-Keeps ip = lift_then others _ (λ a.
      bind-Keeps others (lift_then others _ (λ p. propagate_loop-Keeps p.size ip 0 p.size)) (λ b.
        lift_then others _ (λ c.
          lift_then others _ (λ d.
            lift_then others _ (λ e. lift_then others _ (λ f. pure-Keeps others (some ip)))))))

  duplicate-Keeps : (path : ℕ) (n : ℤ) → Keeps others (duplicate env path n)
  unfolding duplicate
  duplicate-Keeps path n = bind-Keeps others (namei-Keeps others env true path) (λ found.
      option-Keeps others found (pure-Keeps others none) (λ ip. lift_then others _ (λ r.
        if-Keeps others (is_corrupted r) (pure-Keeps others none) (
          lift_then others _ (λ a. bind-Keeps others (give_first-Keeps ip n) (λ b.
            if-Keeps others (not b) (pure-Keeps others none) (
              bind-Keeps others (give_second-Keeps ip n)
                (λ c. if-Keeps others (not c) (pure-Keeps others none) (spread-Keeps ip)))))))))

  pub sys_duplicate-Keeps : Keeps others (sys_duplicate env)
  unfolding sys_duplicate
  sys_duplicate-Keeps = ask_then others _ (λ a.
      option-Keeps others a (pure-Keeps others (negsuc 0)) (λ path. ask_then others _ (λ b.
        option-Keeps others b (pure-Keeps others (negsuc 0)) (λ n.
          bind-Keeps others (duplicate-Keeps path.0 (to_int n)) (λ made.
            option-Keeps others made (pure-Keeps others (negsuc 0))
              (λ ip. pure-Keeps others (pos 0)))))))
