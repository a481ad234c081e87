-- ===== src/Fs/Update/Stored.antt =====
-- `iupdate` (fs.c) stores an inode where `ilock` reads it.
use zv.Prelude.{
  ℕ, ◌+◌, ◌/◌, ◌%◌, ◌<◌, ◌≡◌, ◌≢◌, refl, ap, ◌∙◌, arith, true, false, ◌==◌, ==_iff, if◌then◌else◌,
  Option, some, get_elem?, set, ok,
}
use zv.Block.{Block}
use zv.Disk.{bread}
use zv.Log.{log_size}
use zv.Fs.{Inode, Dinode, Fs, inode_block, ipb, ◌>>◌, ◌>>=◌, read_block}
use zv.Fs.Writes.{InTrans, view, Wrote, write_block_accepted}
use zv.Fs.Image.{
  get_dinode, set_dinode, Fits, SameFields, get_dinode-set_dinode, get_dinode-set_dinode_ne,
}
use zv.Fs.Content.{store_inode, t_dev, DeviceRead}
use zv.Fs.Content.Reading.{Mapped, load_cached}
use zv.Fs.Ilock.{ichecksum}
use zv.Fs.Ilock.Total.{ichecksum_returns}
use zv.Fs.Update.{update_child, iupdate_ext, iupdate}

-- What `iupdate` of the inode `p` has done, where `sum` is the sum of its contents.
pub record Stored (d0 : ℕ → Block) (s t : Fs) (p : Inode) (sum : ℕ) : Type 0 where
  pub fields :
      SameFields
        (get_dinode (view t (inode_block p.inum)) (p.inum % ipb))
        (record p.copy { checksum = sum })
  pub neighbours :
      (j : ℕ)
      → p.inum % ipb ≢ j
      → SameFields
          (get_dinode (view t (inode_block p.inum)) j)
          (get_dinode (view s (inode_block p.inum)) j)
  pub others : (x : ℕ) → x < s.log.start → x ≢ inode_block p.inum → view t x ≡ view s x
  pub trans : InTrans d0 t

with_sum-Fits :
    (d : Dinode) (sum : ℕ) → Fits d → sum < 4294967296 → Fits (record d { checksum = sum })
with_sum-Fits d sum f lt = record {
  type = f.type;
  major = f.major;
  minor = f.minor;
  nlink = f.nlink;
  size = f.size;
  addrs = f.addrs;
  child1 = f.child1;
  child2 = f.child2;
  checksum = lt;
}

-- One block was written, with the dinode in its slot.
Wrote-Stored :
    (d0 : ℕ → Block) (s s1 t : Fs) (p : Inode) (sum : ℕ)
    → Fits (record p.copy { checksum = sum })
    → inode_block p.inum < s.log.start
    → view s1 ≡ view s
    → s1.log.start ≡ s.log.start
    → Wrote d0 s1 t (λ x.
      if x == inode_block p.inum
      then set_dinode
          (view s (inode_block p.inum))
          (p.inum % ipb)
          (record p.copy { checksum = sum })
      else view s1 x)
    → Stored d0 s t p sum
Wrote-Stored d0 s s1 t p sum f inside same_view same_start w =
    let d : Dinode = record p.copy { checksum = sum } in
    let b : ℕ = inode_block p.inum in
    let k : ℕ = p.inum % ipb in
    let self : (b == b) ≡ true = (==_iff b b).1 refl in
    let at : view t b ≡ set_dinode (view s b) k d =
      w.blocks b (rw same_start inside) ∙ rw self refl in
    record {
      fields = rw at (get_dinode-set_dinode (view s b) k d f);
      neighbours = λ j ne. rw at (get_dinode-set_dinode_ne (view s b) k j d ne);
      others = λ x lt ne.
          let other : (x == b) ≡ false = ground (arith, ne) in
          w.blocks x (rw same_start lt) ∙ rw other (ap (λ v. v x) same_view);
      trans = w.trans;
    }

-- Inside a transaction with room for a block, `iupdate` of a file without ditto inodes whose blocks are
-- all there returns.  The slot of the inode then holds the fields of the cached inode, read as `ilock`
-- reads them, with the sum of the contents as the checksum; the other slots of that block and all other
-- blocks below the log show what they did.
pub iupdate-get_dinode :
    (devsw : ℕ → Option DeviceRead) (d0 : ℕ → Block) (s : Fs) (ip : ℕ) (p : Inode)
    → get_elem? s.icache ip ≡ some p
    → p.type ≢ t_dev
    → p.size + 2048 < 4294967296
    → ((x : ℕ) → x < p.size → Mapped (view s) p.copy (x / 512))
    → Fits p.copy
    → p.child1 ≡ 0
    → p.child2 ≡ 0
    → InTrans d0 s
    → inode_block p.inum < s.log.start
    → s.log.n < log_size
    → s.log.n + 1 < s.log.size
    → (sum : ℕ) × (t : Fs) × (ichecksum devsw ip s ≡ ok (sum, s))
      × (iupdate devsw ip s ≡ ok (tt, t))
      × Stored d0 s t p sum
unfolding iupdate iupdate_ext update_child store_inode read_block bread
iupdate-get_dinode devsw d0 s ip p cached file small whole fits none1 none2 g inside few room =
    let (sum, summed, word) = ichecksum_returns devsw s ip p cached file small whole in
    let d : Dinode = record p.copy { checksum = sum } in
    let b : ℕ = inode_block p.inum in
    let s1 : Fs = record s { icache = set s.icache ip (record p { copy = d }) } in
    let (t, done, wrote, more, same) =
      write_block_accepted d0 b (set_dinode (view s b) (p.inum % ipb) d) s1 g inside few room in
    let no1 : (p.child1 == 0) ≡ true = ground (arith, none1) in
    let no2 : (p.child2 == 0) ≡ true = ground (arith, none2) in
    (
      sum,
      t,
      summed,
      rw
          (
            iupdate,
            iupdate_ext,
            load_cached s ip p cached,
            ◌>>=◌,
            summed,
            ◌>>=◌,
            load_cached s ip p cached,
            ◌>>◌,
            ◌>>=◌,
            ◌>>◌,
            ◌>>=◌,
            done,
            no1,
            no2,
          )
          refl,
      Wrote-Stored d0 s s1 t p sum (with_sum-Fits p.copy sum fits word) inside refl refl wrote,
    )
