-- ===== src/Sysfile/Faults.antt =====
-- sysfile.c: `create` of the empty path.
use zv.Prelude.{
  ℕ, zero, suc, ◌+◌, ◌-◌, ◌<◌, ◌≡◌, refl, arith, Bool, true, false, ◌==◌, none, some, get_elem?,
  set, ok, panic,
}
use zv.Strings.{Memory}
use zv.Fs.{Inode, Fs, ◌>>◌, ◌>>=◌}
use zv.Fs.Content.{store_inode}
use zv.Fs.Content.Reading.{load_cached}
use zv.Fs.Icache.{idup}
use zv.Fs.Icache.Get.{get-set}
use zv.Fs.Path.{slash, is_slash, skip, skipelem}
use zv.Fs.Free.{drop_ref, iput}
use zv.Fs.Namex.{Env, namex_loop, namex, nameiparent_ext}
use zv.Files
use zv.Files.{Kernel, lift}
use zv.Sysfile.Paths.{name_buffer, nameiparent, ilock_pointer, distance_to_root}
use zv.Sysfile.Create.{create}

skip_none : (fuel path : ℕ) (m : Memory) → m path ≡ 0 → skip is_slash fuel path m ≡ path
unfolding skip
skip_none zero path m e = refl
skip_none (suc fuel) path m e = rw e refl

skipelem-empty :
    (fuel path name : ℕ) (m : Memory) → m path ≡ 0 → skipelem fuel path name m ≡ (none, m)
unfolding skipelem
skipelem-empty fuel path name m e =
    let at : skip is_slash fuel path m ≡ path = skip_none fuel path m e in
    let over : (m path == 0) ≡ true = ground (arith, e) in rw (at, over) refl

module _ (env : Env) (s : Fs) (ip : ℕ) (p : Inode) (cached : get_elem? s.icache ip ≡ some p)
    (used : 0 < p.ref) where
  abbrev more : Fs
  more = record s { icache = set s.icache ip (record p { ref = p.ref + 1 }) }

  abbrev again : Fs
  again = record more { icache = set more.icache ip (record p { ref = p.ref + 1 - 1 }) }

  at_more : get_elem? more.icache ip ≡ some (record p { ref = p.ref + 1 })
  at_more = get-set s.icache ip p (record p { ref = p.ref + 1 }) cached

  idup_runs : idup ip s ≡ ok (ip, more)
  unfolding idup store_inode
  idup_runs = rw (idup, load_cached s ip p cached, ◌>>=◌, ◌>>◌) refl

  iput_runs : iput env.dev.reads ip more ≡ ok (tt, again)
  unfolding iput drop_ref store_inode
  iput_runs =
      let several : (p.ref + 1 == 1) ≡ false = ground (arith, used) in
      rw
        (
          iput,
          load_cached more ip (record p { ref = p.ref + 1 }) at_more,
          ◌>>=◌,
          several,
          load_cached more ip (record p { ref = p.ref + 1 }) at_more,
          ◌>>=◌,
        )
        refl

  nameiparent_ext-empty :
      (path name : ℕ) (trans : Bool) (m : Memory)
      → m path ≡ 0
      → nameiparent_ext env ip path name trans m s ≡ ok ((none, m), again)
  unfolding nameiparent_ext namex namex_loop
  nameiparent_ext-empty path name trans m e =
      let no_slash : (m path == slash) ≡ false = ground (arith, e) in
      rw
        (
          no_slash,
          idup_runs,
          ◌>>=◌,
          namex_loop,
          skipelem-empty env.length path name m e,
          iput_runs,
          ◌>>◌,
          ◌>>=◌,
        )
        refl

-- `create` of the empty path panics, whatever is to be created, where the entry of the current directory
-- has a reference: the path has no parent, and the parent is locked before it is tested.
pub create-empty_path :
    (env : Env) (path type major minor : ℕ) (s : Kernel) (p : Inode)
    → s.user.memory path ≡ 0
    → get_elem? s.fs.icache s.cwd ≡ some p
    → 0 < p.ref
    → create env path type major minor s ≡ panic "ilock"
unfolding create distance_to_root nameiparent lift ilock_pointer
create-empty_path env path type major minor s p empty cached used =
    rw
      (
        Files.◌>>=◌,
        nameiparent_ext-empty env s.fs s.cwd p cached used path name_buffer true s.user.memory
            empty,
      )
      refl
