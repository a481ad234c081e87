-- ===== src/Sysfile/Keeping.antt =====
-- sysfile.c: paths, `create` and the calls that open keep the reference counts.
use zv.Prelude.{
  ℕ, zero, suc, ◌+◌, arith, Bool, true, ◌&&◌, ◌==◌, ltb, Option, none, some, waits, ℤ, pos, negsuc,
}
use zv.Fs.Ilock.{e_corrupted}
use zv.Fs.Directory.{t_dir, is_zero}
use zv.Fs.Namex.{Env, namei_ext, nameiparent_ext}
use zv.Files.{K, pure, ◌>>=◌}
use zv.Files.Io.{is_corrupted}
use zv.Sysfile.Paths.{name_buffer, namei, with_name, nameiparent, climb, distance_to_root}
use zv.Sysfile.Create.{
  t_file, ditto_higher, new_ditto, make_dittos, make_dots, create_new, create_found, create,
}
use zv.Sysfile.Open.{
  wants_create, open_locked, open_new, open_args, sys_open, sys_forceopen, inode_args, sys_iopen,
}
use zv.Sysfile.Keeps.{
  Keeps, pure-Keeps, fail-Keeps, lift-Keeps, ask-Keeps, bind-Keeps, if-Keeps, option-Keeps,
  lift_then, ask_then,
}
use zv.Sysfile.Opened.{finish_open-Keeps}

-- The rules for the calls that do not touch the open files.
pub ruleset keeping =
    (pure-Keeps, fail-Keeps, lift-Keeps, ask-Keeps, bind-Keeps, if-Keeps, option-Keeps)

module _ (others : ℕ → ℕ) (env : Env) where
  pub namei-Keeps : (trans : Bool) (path : ℕ) → Keeps others (namei env trans path)
  unfolding namei
  namei-Keeps trans path = record {
    keeps = λ s a t c e.
        (bind-Keeps others
            (lift-Keeps others (namei_ext env s.cwd path name_buffer trans s.user.memory))
            (λ r. pure-Keeps others r.0)).keeps
          s a t c e;
  }

  pub nameiparent-Keeps : (trans : Bool) (path : ℕ) → Keeps others (nameiparent env trans path)
  unfolding nameiparent
  nameiparent-Keeps trans path = record {
    keeps = λ s a t c e.
        (bind-Keeps others
            (lift-Keeps others (nameiparent_ext env s.cwd path name_buffer trans s.user.memory))
            (λ r. pure-Keeps others (with_name r.0 r.1))).keeps
          s a t c e;
  }

  waits-Keeps : Keeps others {A = ℕ} (λ s. waits)
  waits-Keeps = record { keeps = λ s a t c e. ground (arith, e) }

  climb-Keeps : (fuel dp counter : ℕ) → Keeps others (climb fuel env dp counter)
  unfolding climb
  climb-Keeps zero dp counter = waits-Keeps
  climb-Keeps (suc fuel) dp counter = lift_then others _ (λ up.
      option-Keeps others up (pure-Keeps others counter) (λ r. lift_then others _ (λ p.
        lift_then others _ (λ a. lift_then others _ (λ b. lift_then others _ (λ q.
          if-Keeps others (p.inum == q.inum) (lift_then others _ (λ c. pure-Keeps others counter))
            (climb-Keeps fuel r.0 (counter + 1))))))))

  distance_to_root-Keeps : (path : ℕ) → Keeps others (distance_to_root env path)
  unfolding distance_to_root
  distance_to_root-Keeps path = bind-Keeps others (nameiparent-Keeps true path) (λ found.
      lift_then others _ (λ a.
        option-Keeps others found (fail-Keeps others "dirlookup")
          (λ r. climb-Keeps env.length r.0 1)))

  pub new_ditto-Keeps : Keeps others new_ditto
  unfolding new_ditto
  new_ditto-Keeps = search keeping

  make_dittos-Keeps : (ip dtr : ℕ) → Keeps others (make_dittos ip dtr)
  unfolding make_dittos
  make_dittos-Keeps ip dtr = search (keeping, new_ditto-Keeps)

  -- The result of `dirlink` is tested for -1.
  pub sign-Keeps {ℓ} :
      {A : Type ℓ} {m n : K A} (r : ℤ)
      → Keeps others m
      → Keeps others n
      → Keeps others (elim r [ negsuc k ↦ m | pos k ↦ n ])
  sign-Keeps (negsuc k) a b = a
  sign-Keeps (pos k) a b = b

  make_dots-Keeps : (dp ip : ℕ) → Keeps others (make_dots env dp ip)
  unfolding make_dots
  make_dots-Keeps dp ip = lift_then others _ (λ a. lift_then others _ (λ b. lift_then others _ (λ p.
      lift_then others _ (λ q. lift_then others _ (λ c.
        sign-Keeps c (fail-Keeps others "create dots") (
          lift_then others _
            (λ d. sign-Keeps d (fail-Keeps others "create dots") (pure-Keeps others tt))))))))

  create_new-Keeps :
      (dtr dp : ℕ) (name : ℕ → ℕ) (type major minor : ℕ)
      → Keeps others (create_new env dtr dp name type major minor)
  unfolding create_new
  create_new-Keeps dtr dp name type major minor = lift_then others _ (λ ip. lift_then others _ (λ r.
      lift_then others _ (λ a.
        bind-Keeps others
          (if-Keeps others (type == t_dir && ltb dtr ditto_higher) (make_dittos-Keeps ip dtr)
            (pure-Keeps others tt))
          (λ b. lift_then others _ (λ c.
            bind-Keeps others
              (if-Keeps others (type == t_dir) (make_dots-Keeps dp ip) (pure-Keeps others tt))
              (λ d. lift_then others _ (λ p. lift_then others _ (λ e.
                sign-Keeps e (fail-Keeps others "create: dirlink")
                  (lift_then others _ (λ f. pure-Keeps others ip))))))))))

  create_found-Keeps : (dp ip type : ℕ) → Keeps others (create_found env dp ip type)
  unfolding create_found
  create_found-Keeps dp ip type = lift_then others _ (λ a. lift_then others _ (λ r.
      lift_then others _ (λ p.
        if-Keeps others (type == t_file && p.type == t_file) (pure-Keeps others (some ip))
          (lift_then others _ (λ b. pure-Keeps others none)))))

  pub create-Keeps : (path type major minor : ℕ) → Keeps others (create env path type major minor)
  unfolding create
  create-Keeps path type major minor = bind-Keeps others (distance_to_root-Keeps path) (λ dtr.
      bind-Keeps others (nameiparent-Keeps true path) (λ found.
        option-Keeps others found (pure-Keeps others none) (λ d.
          lift_then others _ (λ r. lift_then others _ (λ there. by_entry dtr d.0 d.1 there)))))
    where
      by_entry :
          (dtr dp : ℕ) (name : ℕ → ℕ) (there : Option (ℕ × ℕ))
          → Keeps others (elim there [
            | some (ip, off) ↦ create_found env dp ip type
            | none ↦ do ip ← create_new env dtr dp name type major minor; pure (some ip)
          ])
      by_entry dtr dp name (some (ip, off)) = create_found-Keeps dp ip type
      by_entry dtr dp name none =
          bind-Keeps others (create_new-Keeps dtr dp name type major minor)
            (λ ip. pure-Keeps others (some ip))

  pub open_new-Keeps : (path omode : ℕ) → Keeps others (open_new env path omode)
  unfolding open_new
  open_new-Keeps path omode = lift_then others _ (λ a.
      bind-Keeps others (create-Keeps path t_file 1 0) (λ made. lift_then others _ (λ b.
        option-Keeps others made (pure-Keeps others (negsuc 0))
          (λ ip. finish_open-Keeps others env ip omode (negsuc 0)))))

  open_args-Keeps : Keeps others open_args
  unfolding open_args
  open_args-Keeps = ask_then others _ (λ a. option-Keeps others a (pure-Keeps others none) (λ r.
      ask_then others _ (λ m.
        option-Keeps others m (pure-Keeps others none)
          (λ omode. pure-Keeps others (some (r.0, omode))))))

  inode_args-Keeps : Keeps others inode_args
  unfolding inode_args
  inode_args-Keeps = ask_then others _ (λ a. option-Keeps others a (pure-Keeps others none) (λ dev.
      ask_then others _ (λ i.
        option-Keeps others i (pure-Keeps others none)
          (λ inum. pure-Keeps others (some (dev, inum))))))

  open_locked-Keeps : (ip omode : ℕ) → Keeps others (open_locked env ip omode)
  unfolding open_locked
  open_locked-Keeps ip omode = search (keeping, finish_open-Keeps)

  pub sys_open-Keeps : Keeps others (sys_open env)
  unfolding sys_open
  sys_open-Keeps = bind-Keeps others open_args-Keeps (λ a.
      option-Keeps others a (pure-Keeps others (negsuc 0)) (λ r.
        if-Keeps others (wants_create r.1) (open_new-Keeps r.0 r.1) (
          bind-Keeps others (namei-Keeps true r.0) (λ found.
            option-Keeps others found (pure-Keeps others (negsuc 0)) (λ ip. lift_then others _ (λ b.
              if-Keeps others (is_corrupted b) (pure-Keeps others e_corrupted)
                (open_locked-Keeps ip r.1)))))))

  pub sys_forceopen-Keeps : Keeps others (sys_forceopen env)
  unfolding sys_forceopen
  sys_forceopen-Keeps = bind-Keeps others open_args-Keeps (λ a.
      option-Keeps others a (pure-Keeps others (negsuc 0)) (λ r.
        if-Keeps others (wants_create r.1) (open_new-Keeps r.0 r.1) (
          bind-Keeps others (namei-Keeps true r.0) (λ found.
            option-Keeps others found (pure-Keeps others (negsuc 0))
              (λ ip. lift_then others _ (λ b. open_locked-Keeps ip r.1))))))

  pub sys_iopen-Keeps : Keeps others (sys_iopen env)
  unfolding sys_iopen
  sys_iopen-Keeps = bind-Keeps others inode_args-Keeps (λ a.
      option-Keeps others a (pure-Keeps others (negsuc 0)) (λ r. lift_then others _ (λ ip.
        lift_then others _ (λ b. if-Keeps others (is_corrupted b) (pure-Keeps others e_corrupted) (
          if-Keeps others (is_zero b) (finish_open-Keeps others env ip 0 (negsuc 2))
            (pure-Keeps others (negsuc 3)))))))
