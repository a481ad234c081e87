-- ===== src/Sysfile/Linking.antt =====
-- sysfile.c: `sys_link` and `sys_unlink` keep the reference counts.
use zv.Prelude.{ℕ, true, false, ◌||◌, not, ◌==◌, pos, negsuc}
use zv.Fs.Directory.{t_dir, dirent_size, namecmp, is_zero}
use zv.Fs.Namex.{Env}
use zv.Sysfile.Paths.{dot, dot_dot}
use zv.Sysfile.Link.{
  undo_link, enter_link, link, sys_link, give_back, remove_entry, no_links, is_kept, unlink_found,
  unlink, sys_unlink,
}
use zv.Sysfile.Keeps.{
  Keeps, pure-Keeps, fail-Keeps, lift-Keeps, bind-Keeps, if-Keeps, option-Keeps, lift_then,
  ask_then,
}
use zv.Sysfile.Keeping.{namei-Keeps, nameiparent-Keeps, sign-Keeps}

module _ (others : ℕ → ℕ) (env : Env) where
  undo_link-Keeps : (ip : ℕ) → Keeps others (undo_link env ip)
  unfolding undo_link
  undo_link-Keeps ip = lift_then others _ (λ r.
      lift_then others _
        (λ a. lift_then others _ (λ b. lift_then others _ (λ c. pure-Keeps others (negsuc 0)))))

  enter_link-Keeps : (ip new : ℕ) → Keeps others (enter_link env ip new)
  unfolding enter_link
  enter_link-Keeps ip new = bind-Keeps others (nameiparent-Keeps others env false new) (λ found.
      option-Keeps others found (undo_link-Keeps ip) (λ d. lift_then others _ (λ r.
        if-Keeps others (not (is_zero r)) (fail-Keeps others "sys_link") (
          lift_then others _ (λ p. lift_then others _ (λ a. lift_then others _ (λ b.
            sign-Keeps others env a (undo_link-Keeps ip)
              (lift_then others _ (λ c. lift_then others _ (λ e. pure-Keeps others (pos 0)))))))))))

  link-Keeps : (old new : ℕ) → Keeps others (link env old new)
  unfolding link
  link-Keeps old new = bind-Keeps others (namei-Keeps others env true old) (λ found.
      option-Keeps others found (pure-Keeps others (negsuc 0)) (λ ip. lift_then others _ (λ r.
        lift_then others _ (λ a. lift_then others _ (λ p.
          if-Keeps others (p.type == t_dir)
            (lift_then others _ (λ b. lift_then others _ (λ c. pure-Keeps others (negsuc 0))))
            (lift_then others _ (λ b. lift_then others _ (λ c. enter_link-Keeps ip new))))))))

  pub sys_link-Keeps : Keeps others (sys_link env)
  unfolding sys_link
  sys_link-Keeps = ask_then others _ (λ a.
      option-Keeps others a (pure-Keeps others (negsuc 0)) (λ old. ask_then others _ (λ b.
        option-Keeps others b (pure-Keeps others (negsuc 0)) (λ new. link-Keeps old.0 new.0))))

  give_back-Keeps : (dp : ℕ) → Keeps others (give_back env dp)
  unfolding give_back
  give_back-Keeps dp =
      lift_then others _ (λ a. lift_then others _ (λ b. pure-Keeps others (negsuc 0)))

  remove_entry-Keeps : (dp ip off : ℕ) → Keeps others (remove_entry env dp ip off)
  unfolding remove_entry
  remove_entry-Keeps dp ip off = lift_then others _ (λ w.
      option-Keeps others w (fail-Keeps others "unlink: writei") (λ n.
        if-Keeps others (n == dirent_size)
          (lift_then others _ (λ p.
            bind-Keeps others
              (if-Keeps others (p.type == t_dir) (lift-Keeps others _) (pure-Keeps others tt))
              (λ a. lift_then others _ (λ b. lift_then others _ (λ c.
                lift_then others _ (λ d. lift_then others _ (λ e. pure-Keeps others (pos 0))))))))
          (fail-Keeps others "unlink: writei")))

  is_kept-Keeps : (ip type : ℕ) → Keeps others (is_kept env ip type)
  unfolding is_kept
  is_kept-Keeps ip type =
      if-Keeps others (type == t_dir) (lift_then others _ (λ empty. pure-Keeps others (not empty)))
        (pure-Keeps others false)

  unlink_found-Keeps : (dp ip off : ℕ) → Keeps others (unlink_found env dp ip off)
  unfolding unlink_found
  unlink_found-Keeps dp ip off = lift_then others _ (λ r.
      sign-Keeps others env r (fail-Keeps others "sys_unlink") (
        lift_then others _ (λ p.
          if-Keeps others (no_links p.nlink) (fail-Keeps others "unlink: nlink < 1") (
            bind-Keeps others (is_kept-Keeps ip p.type) (λ kept.
              if-Keeps others kept (lift_then others _ (λ a. give_back-Keeps dp))
                (remove_entry-Keeps dp ip off))))))

  unlink-Keeps : (path : ℕ) → Keeps others (unlink env path)
  unfolding unlink
  unlink-Keeps path = bind-Keeps others (nameiparent-Keeps others env true path) (λ found.
      option-Keeps others found (pure-Keeps others (negsuc 0)) (λ d. lift_then others _ (λ a.
        lift_then others _ (λ r. sign-Keeps others env r (fail-Keeps others "sys_unlink") (
          if-Keeps others (is_zero (namecmp d.1 dot) || is_zero (namecmp d.1 dot_dot))
            (give_back-Keeps d.0)
            (lift_then others _ (λ there.
              option-Keeps others there (give_back-Keeps d.0)
                (λ e. unlink_found-Keeps d.0 e.0 e.1))))))))

  pub sys_unlink-Keeps : Keeps others (sys_unlink env)
  unfolding sys_unlink
  sys_unlink-Keeps =
      ask_then others _
        (λ a. option-Keeps others a (pure-Keeps others (negsuc 0)) (λ path. unlink-Keeps path.0))
