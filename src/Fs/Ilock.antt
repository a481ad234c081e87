-- ===== src/Fs/Ilock.antt =====
-- fs.c: `ichecksum` and `ilock`, which reads an inode and checks its contents, and otherwise looks for
-- a ditto inode that can replace it.
pub mod Verified
pub mod Total
use zv.Prelude.{
  ℕ, zero, suc, ◌+◌, ◌-◌, ◌*◌, ◌/◌, ◌%◌, Bool, true, false, ◌||◌, not, ◌==◌, ltb, leb,
  if◌then◌else◌, Option, none, some, ok, panic, waits, ℤ, pos, negsuc, update,
}
use zv.Block.{Block, get_word}
use zv.Fs.{Inode, Dinode, Fs, M, pure, fail, ◌>>=◌, ◌>>◌, ipb, inode_block, read_block}
use zv.Fs.Image.{get_dinode}
use zv.Fs.Content.{load, store_inode, t_dev, DeviceRead, readi}
use zv.Fs.Icache.{iget, iunlock}

-- `^` of numbers of `w` bits.
unfoldable pub xor : ℕ → ℕ → ℕ → ℕ
xor zero a b = 0
xor (suc w) a b = (a + b) % 2 + 2 * xor w (a / 2) (b / 2)

-- `for (i = 0; …) checksum ^= buf[i]`, with `k` words left.
unfoldable pub xor_words : ℕ → ℕ → Block → ℕ → ℕ
unfolding xor
xor_words zero i buf sum = sum
xor_words (suc k) i buf sum = xor_words k (suc i) buf (xor 32 sum (get_word buf i))

-- The loop of `ichecksum` on fuel; the -1 of `readi` is not 0 as a uint, and adds to `off` as such.
unfoldable pub checksum_loop : ℕ → (ℕ → Option DeviceRead) → ℕ → ℕ → ℕ → M ℕ
unfolding readi xor_words
checksum_loop zero devsw ip off sum = λ s. waits
checksum_loop (suc fuel) devsw ip off sum = do
  r ← readi devsw ip (λ _. 0) off 2048
  elim r [
    | none ↦ checksum_loop fuel devsw ip ((off + 4294967295) % 4294967296) sum
    | some (k, buf) ↦
        if k == 0
        then pure sum
        else checksum_loop fuel devsw ip ((off + k) % 4294967296) (xor_words 512 0 buf sum)
  ]

-- Each round but the last reads a byte at least.
unfoldable pub ichecksum : (ℕ → Option DeviceRead) → ℕ → M ℕ
unfolding load checksum_loop
ichecksum devsw ip = do
  p ← load ip
  if p.type == t_dev then pure 0 else checksum_loop (p.size + 2) devsw ip 0 0

-- E_CORRUPTED.
abbrev pub e_corrupted : ℤ
e_corrupted = negsuc 9

-- From `zc_success` on.
unfoldable pub succeed : ℕ → M ℤ
unfolding load store_inode
succeed ip = do
  p ← load ip
  store_inode ip (record p { valid = true })
  if p.type == 0 then fail "ilock: no type" else pure (pos 0)

-- From `zc_failure` on.
unfoldable pub give_up : ℕ → M ℤ
unfolding iunlock
give_up ip = do iunlock ip; pure e_corrupted

-- The replica `rinum` is good if it can be locked; otherwise the inode is verified `again`.
unfoldable pub try_replica : (ℕ → M ℤ) → ℕ → ℕ → M ℤ → M ℤ
unfolding give_up iget iunlock
try_replica lock ip rinum again = if rinum == 0 then give_up ip else (do
  replica ← iget rinum
  r ← lock replica
  elim r [ pos zero ↦ do iunlock replica; iunlock ip; pure (pos rinum) | _ ↦ again ])

-- The sum of the contents is compared with the checksum of the inode.
unfoldable pub check : (ℕ → Option DeviceRead) → ℕ → (Inode → M ℤ) → M ℤ
unfolding ichecksum load succeed
check devsw ip otherwise = do
  sum ← ichecksum devsw ip
  p ← load ip
  if sum == p.checksum then succeed ip else otherwise p

-- From `zc_verify` on, with `left` replicas that have not been tried; `lock` is `ilock`.
unfoldable pub verify : (ℕ → Option DeviceRead) → (ℕ → M ℤ) → ℕ → ℕ → M ℤ
unfolding check try_replica give_up
verify devsw lock zero ip = check devsw ip (λ p. give_up ip)
verify devsw lock (suc left) ip =
    let again = verify devsw lock left ip in
    check devsw ip (λ p. try_replica lock ip (if left == 1 then p.child1 else p.child2) again)

-- The inode is locked and its fields are read.
unfoldable pub read_inode : ℕ → M (Unit {0})
unfolding load store_inode read_block
read_inode ip = do
  p ← load ip
  b ← read_block (inode_block p.inum)
  store_inode ip (record p { copy = get_dinode b (p.inum % ipb) })

-- `ilock_ext`, on fuel for the `ilock` of a replica, of a replica of that one, and so on.
unfoldable pub ilock_ext : ℕ → (ℕ → Option DeviceRead) → ℕ → Bool → M ℤ
unfolding load store_inode read_inode verify succeed
ilock_ext zero devsw ip checksum = λ s. waits
ilock_ext (suc fuel) devsw ip checksum =
    let lock = λ (r : ℕ). ilock_ext fuel devsw r true in
    (do
      p ← load ip
      if p.ref == 0
          then fail "ilock"
          else (if p.busy then (λ s. waits) else (do
            store_inode ip (record p { busy = true })
            if p.valid
                then pure (pos 0)
                else (do read_inode ip; if checksum then verify devsw lock 2 ip else succeed ip))))
