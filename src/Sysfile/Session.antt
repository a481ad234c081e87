-- ===== src/Sysfile/Session.antt =====
-- A process that makes one system call after the other (syscall.c, sysfile.c).
use zv.Prelude.{
  ℕ, ◌≡◌, ◌≢◌, refl, sym, ◌∙◌, arith, List, [], ◌∷◌, get_elem?, some, Result, ok, panic, waits, ℤ,
}
use zv.Syscall.{User}
use zv.Fs.Namex.{Env}
use zv.Files.{Kernel, K}
use zv.Files.Refs.{ref_of, Counted}
use zv.Sysfile.{sys_dup, sys_close}
use zv.Sysfile.Open.{sys_open, sys_forceopen, sys_iopen}
use zv.Sysfile.Link.{sys_link, sys_unlink}
use zv.Sysfile.Calls.{sys_mkdir, sys_mknod, sys_chdir}
use zv.Sysfile.Ditto.{sys_duplicate}
use zv.Sysfile.Refs.{sys_dup-Counted, count_of-used}
use zv.Sysfile.Close.{sys_close-Counted}
use zv.Sysfile.Keeps.{Keeps}
use zv.Sysfile.Keeping.{sys_open-Keeps, sys_forceopen-Keeps, sys_iopen-Keeps}
use zv.Sysfile.Linking.{sys_link-Keeps, sys_unlink-Keeps}
use zv.Sysfile.Making.{sys_mkdir-Keeps, sys_mknod-Keeps, sys_chdir-Keeps, sys_duplicate-Keeps}

-- The calls that open, close and name files.
pub data FileCall : Type 0 where
  chdir : FileCall
  dup : FileCall
  open_path : FileCall
  mknod : FileCall
  unlink : FileCall
  link : FileCall
  mkdir : FileCall
  close : FileCall
  iopen : FileCall
  duplicate : FileCall
  forceopen : FileCall

-- Their entries in `syscalls`.
unfoldable pub handler : Env → FileCall → K ℤ
handler env chdir = sys_chdir env
handler env dup = sys_dup
handler env open_path = sys_open env
handler env mknod = sys_mknod env
handler env unlink = sys_unlink env
handler env link = sys_link env
handler env mkdir = sys_mkdir env
handler env close = sys_close env
handler env iopen = sys_iopen env
handler env duplicate = sys_duplicate env
handler env forceopen = sys_forceopen env

-- Calls one after the other; before each the process has made of its memory what it likes.
unfoldable pub session : Env → List (FileCall × User) → Kernel → Result Kernel
unfolding handler
session env [] s = ok s
session env ((c, u) ∷ cs) s = elim (handler env c (record s { user = u })) [
  | ok (r, t) ↦ session env cs t
  | panic e ↦ panic e
  | waits ↦ waits
]

module _ (others : ℕ → ℕ) (env : Env) where
  dup-Keeps : Keeps others sys_dup
  dup-Keeps = record {
    keeps = λ s a t c e.
        let (r, u, done, c', how) = sys_dup-Counted others s c in
        let same : ◌≡◌ {A = Result (ℤ × Kernel)} (ok (r, u)) (ok (a, t)) = sym done ∙ e in
        let at : u ≡ t = ground (arith, same) in rw (← at) c';
  }

  handler-Keeps : (c : FileCall) → Keeps others (handler env c)
  unfolding handler
  handler-Keeps chdir = sys_chdir-Keeps others env
  handler-Keeps dup = dup-Keeps
  handler-Keeps open_path = sys_open-Keeps others env
  handler-Keeps mknod = sys_mknod-Keeps others env
  handler-Keeps unlink = sys_unlink-Keeps others env
  handler-Keeps link = sys_link-Keeps others env
  handler-Keeps mkdir = sys_mkdir-Keeps others env
  handler-Keeps close = record { keeps = λ s a t c e. (sys_close-Counted others env s a t c e).0 }
  handler-Keeps iopen = sys_iopen-Keeps others env
  handler-Keeps duplicate = sys_duplicate-Keeps others env
  handler-Keeps forceopen = sys_forceopen-Keeps others env

  session-Counted :
      (cs : List (FileCall × User)) (s t : Kernel)
      → Counted others s
      → session env cs s ≡ ok t
      → Counted others t
  unfolding session
  session-Counted [] s t c e = let same : s ≡ t = ground (arith, e) in rw (← same) c
  session-Counted ((f, u) ∷ cs) s t c e =
      go (λ v c' h. session-Counted cs v t c' h) (handler env f (record s { user = u })) refl e
    where
      go :
          ((v : Kernel) → Counted others v → session env cs v ≡ ok t → Counted others t)
          → (r : Result (ℤ × Kernel)) → handler env f (record s { user = u }) ≡ r
          → (elim r [ ok (a, v) ↦ session env cs v | panic x ↦ panic x | waits ↦ waits ]) ≡ ok t
          → Counted others t
      go rest (ok (a, v)) q h =
          rest v
            ((handler-Keeps f).keeps (record s { user = u }) a v (record { counted = c.counted }) q)
            h
      go rest (panic x) q h = ground (arith, h)
      go rest waits q h = ground (arith, h)

-- Where each file has as many references as there are descriptors for it, in this process and in the others, it has as many after each sequence of calls that open, close, link and unlink files, make directories and devices, change the directory and make duplicates, with any arguments, if all of them return; and a descriptor of the process then names a file that has a reference, which `filealloc` does not give away.
pub session-keeps_files :
    (others : ℕ → ℕ) (env : Env) (cs : List (FileCall × User)) (s t : Kernel)
    → Counted others s
    → session env cs s ≡ ok t
    → Counted others t × ((fd f : ℕ) → get_elem? t.ofile fd ≡ some (some f) → ref_of t.files f ≢ 0)
session-keeps_files others env cs s t c e =
    let c' = session-Counted others env cs s t c e in
    (c', λ fd f found z. count_of-used t.ofile fd f found (omega (arith, c'.counted f, z)))
