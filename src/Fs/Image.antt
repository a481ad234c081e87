-- ===== src/Fs/Image.antt =====
-- `struct dinode` (fs.h) in a block: eight of them, of 64 bytes each with no padding.
use zv.Prelude.{
  ℕ, ◌+◌, ◌-◌, ◌*◌, ◌/◌, ◌%◌, ◌≤◌, ◌<◌, ◌≡◌, ◌≢◌, refl, ◌∙◌, arith, ◌==◌, ==_iff, ltb,
  if◌then◌else◌,
}
use zv.Block.{Block, get_word, byte_of, byte_of_sum}
use native.Mathlib.Nat.{add-zero}
use zv.Fs.{Dinode, ndirect}

-- The `w`-th word of the image of a dinode: shorts lie in pairs, low half first.
unfoldable pub dinode_word : Dinode → ℕ → ℕ
dinode_word d w =
    if w == 0
    then d.type + 65536 * d.major
    else if w == 1
    then d.minor + 65536 * d.nlink
    else if w == 2
    then d.size
    else if ltb w 14
    then d.addrs (w - 3)
    else if w == 14
    then d.child1 + 65536 * d.child2
    else d.checksum

-- The fields of the dinode at slot `k`, all of them assigned.
unfoldable pub set_dinode : Block → ℕ → Dinode → Block
unfolding dinode_word
set_dinode b k d j = if j / 64 == k then byte_of (dinode_word d (j % 64 / 4)) (j % 4) else b j

unfoldable pub get_dinode : Block → ℕ → Dinode
get_dinode b k = record {
  type = get_word b (16 * k) % 65536;
  major = get_word b (16 * k) / 65536;
  minor = get_word b (16 * k + 1) % 65536;
  nlink = get_word b (16 * k + 1) / 65536;
  size = get_word b (16 * k + 2);
  addrs = λ j. get_word b (16 * k + 3 + j);
  child1 = get_word b (16 * k + 14) % 65536;
  child2 = get_word b (16 * k + 14) / 65536;
  checksum = get_word b (16 * k + 15);
}

-- Shorts and words are in their ranges.
pub record Fits (d : Dinode) : Type 0 where
  pub type : d.type < 65536
  pub major : d.major < 65536
  pub minor : d.minor < 65536
  pub nlink : d.nlink < 65536
  pub size : d.size < 4294967296
  pub addrs : (j : ℕ) → j ≤ ndirect → d.addrs j < 4294967296
  pub child1 : d.child1 < 65536
  pub child2 : d.child2 < 65536
  pub checksum : d.checksum < 4294967296

set_dinode_byte :
    (b : Block) (k w o : ℕ) (d : Dinode)
    → w < 16
    → o < 4
    → set_dinode b k d (4 * (16 * k + w) + o) ≡ byte_of (dinode_word d w) o
unfolding set_dinode
set_dinode_byte b k w o d hw ho =
    let p : (4 * (16 * k + w) + o) / 64 ≡ k = omega arith in
    let q : (4 * (16 * k + w) + o) % 64 / 4 ≡ w = omega arith in
    let r : (4 * (16 * k + w) + o) % 4 ≡ o = omega arith in rw (p, q, r, (==_iff k k).1 refl)

get_word-set_dinode :
    (b : Block) (k w : ℕ) (d : Dinode)
    → w < 16
    → dinode_word d w < 4294967296
    → get_word (set_dinode b k d) (16 * k + w) ≡ dinode_word d w
unfolding get_word
get_word-set_dinode b k w d hw fits =
    let first : set_dinode b k d (4 * (16 * k + w)) ≡ byte_of (dinode_word d w) 0 =
      rw (← add-zero (4 * (16 * k + w))) (set_dinode_byte b k w 0 d hw (omega arith)) in
    rw
      (
        first,
        set_dinode_byte b k w 1 d hw (omega arith),
        set_dinode_byte b k w 2 d hw (omega arith),
        set_dinode_byte b k w 3 d hw (omega arith),
      )
      (byte_of_sum (dinode_word d w) fits)

set_dinode_other :
    (b : Block) (k j x : ℕ) (d : Dinode) → k ≢ j → x / 64 ≡ j → set_dinode b k d x ≡ b x
unfolding set_dinode
set_dinode_other b k j x d ne e = ground arith

get_word-set_dinode_ne :
    (b : Block) (k j w : ℕ) (d : Dinode)
    → k ≢ j
    → w < 16
    → get_word (set_dinode b k d) (16 * j + w) ≡ get_word b (16 * j + w)
unfolding get_word
get_word-set_dinode_ne b k j w d ne hw = rw (
  set_dinode_other b k j (4 * (16 * j + w)) d ne (omega arith),
  set_dinode_other b k j (4 * (16 * j + w) + 1) d ne (omega arith),
  set_dinode_other b k j (4 * (16 * j + w) + 2) d ne (omega arith),
  set_dinode_other b k j (4 * (16 * j + w) + 3) d ne (omega arith),
)

-- Two dinodes have the same fields; of `addrs` the NDIRECT + 1 entries count.
pub record SameFields (d e : Dinode) : Type 0 where
  pub type : d.type ≡ e.type
  pub major : d.major ≡ e.major
  pub minor : d.minor ≡ e.minor
  pub nlink : d.nlink ≡ e.nlink
  pub size : d.size ≡ e.size
  pub addrs : (j : ℕ) → j ≤ ndirect → d.addrs j ≡ e.addrs j
  pub child1 : d.child1 ≡ e.child1
  pub child2 : d.child2 ≡ e.child2
  pub checksum : d.checksum ≡ e.checksum

addr_word : (d : Dinode) (i : ℕ) → i ≤ ndirect → dinode_word d (3 + i) ≡ d.addrs i
unfolding dinode_word
addr_word d i h = let e : 3 + i - 3 ≡ i = omega arith in ground (arith, e)

module _ (b : Block) (k : ℕ) (d : Dinode) (f : Fits d) where
  word_back :
      (w : ℕ)
      → w < 16
      → dinode_word d w < 4294967296
      → get_word (set_dinode b k d) (16 * k + w) ≡ dinode_word d w
  word_back w = get_word-set_dinode b k w d

  word0 : get_word (set_dinode b k d) (16 * k) ≡ d.type + 65536 * d.major
  unfolding dinode_word
  word0 = rw (← add-zero (16 * k)) (word_back 0 (omega arith) (omega (arith, f.type, f.major)))

  word1 : get_word (set_dinode b k d) (16 * k + 1) ≡ d.minor + 65536 * d.nlink
  unfolding dinode_word
  word1 = word_back 1 (omega arith) (omega (arith, f.minor, f.nlink))

  word2 : get_word (set_dinode b k d) (16 * k + 2) ≡ d.size
  unfolding dinode_word
  word2 = word_back 2 (omega arith) f.size

  word14 : get_word (set_dinode b k d) (16 * k + 14) ≡ d.child1 + 65536 * d.child2
  unfolding dinode_word
  word14 = word_back 14 (omega arith) (omega (arith, f.child1, f.child2))

  word15 : get_word (set_dinode b k d) (16 * k + 15) ≡ d.checksum
  unfolding dinode_word
  word15 = word_back 15 (omega arith) f.checksum

  word_addr : (j : ℕ) → j ≤ ndirect → get_word (set_dinode b k d) (16 * k + 3 + j) ≡ d.addrs j
  word_addr j le =
      let at : 16 * k + 3 + j ≡ 16 * k + (3 + j) = omega arith in
      let e : dinode_word d (3 + j) ≡ d.addrs j = addr_word d j le in
      rw at (word_back (3 + j) (omega arith) (rw e (f.addrs j le)) ∙ e)

  -- A dinode that is written to its slot is read back from it.
  pub get_dinode-set_dinode : SameFields (get_dinode (set_dinode b k d) k) d
  unfolding get_dinode
  get_dinode-set_dinode = record {
    type = rw word0 (omega (arith, f.type));
    major = rw word0 (omega (arith, f.type));
    minor = rw word1 (omega (arith, f.minor));
    nlink = rw word1 (omega (arith, f.minor));
    size = word2;
    addrs = word_addr;
    child1 = rw word14 (omega (arith, f.child1));
    child2 = rw word14 (omega (arith, f.child1));
    checksum = word15;
  }

-- Another slot of the block keeps its dinode.
pub get_dinode-set_dinode_ne :
    (b : Block) (k j : ℕ) (d : Dinode)
    → k ≢ j
    → SameFields (get_dinode (set_dinode b k d) j) (get_dinode b j)
unfolding get_dinode
get_dinode-set_dinode_ne b k j d ne =
    let w0 : get_word (set_dinode b k d) (16 * j) ≡ get_word b (16 * j) =
      rw (← add-zero (16 * j)) (kept 0 (omega arith)) in
    record {
      type = rw w0;
      major = rw w0;
      minor = rw (kept 1 (omega arith));
      nlink = rw (kept 1 (omega arith));
      size = kept 2 (omega arith);
      addrs = λ i le.
          let at : 16 * j + 3 + i ≡ 16 * j + (3 + i) = omega arith in
          rw at (kept (3 + i) (omega arith));
      child1 = rw (kept 14 (omega arith));
      child2 = rw (kept 14 (omega arith));
      checksum = kept 15 (omega arith);
    }
  where
    kept : (w : ℕ) → w < 16 → get_word (set_dinode b k d) (16 * j + w) ≡ get_word b (16 * j + w)
    kept w = get_word-set_dinode_ne b k j w d ne
