-- ===== src/Fs/Path/Element.antt =====
-- `skipelem` (fs.c) splits the first element off a path.
use zv.Prelude.{
  ℕ, zero, suc, ◌+◌, ◌-◌, ◌≤◌, ◌<◌, ◌≡◌, refl, ◌∙◌, ◌⊎◌, inl, inr, arith, Bool, true, false, ◌&&◌,
  ◌==◌, ltb, if◌then◌else◌, some, min, Bool-cases,
}
use zv.Strings.{Memory}
use zv.Strings.Moves.{within, memmove_lem}
use zv.Fs.Path.{dirsiz, is_slash, is_name, skip, copy_name, skipelem}

-- A loop passes the `k` bytes that meet its test and stops at the first that does not.
skip_lem :
    (test : ℕ → Bool) (fuel path k : ℕ) (m : Memory)
    → ((i : ℕ) → path ≤ i → i < path + k → test (m i) ≡ true)
    → test (m (path + k)) ≡ false
    → k ≤ fuel
    → skip test fuel path m ≡ path + k
unfolding skip
skip_lem test zero path k m h stop le = omega arith
skip_lem test (suc fuel) path zero m h stop le =
    let here : path + 0 ≡ path = omega arith in
    let no : test (m path) ≡ false = rw here at stop in rw no (omega arith)
skip_lem test (suc fuel) path (suc k) m h stop le =
    let next : path + 1 + k ≡ path + suc k = omega arith in
    rw (h path (omega arith) (omega arith)) (
      skip_lem test fuel (path + 1) k m (λ i a b. h i (omega arith) (omega arith)) (rw next stop)
        (omega arith)
      ∙ next)

copy_name_lem :
    (name s len : ℕ) (m : Memory) (x : ℕ)
    → copy_name name s len m x ≡ (
        if within name (min len dirsiz) x
        then m (s + (x - name))
        else if ltb len dirsiz && x == name + len
        then 0
        else m x)
unfolding copy_name
copy_name_lem name s len m x = elim (Bool-cases (ltb len dirsiz)) [
  | inl short ↦ rw short (ground (arith, memmove_lem name s len m x, short))
  | inr long ↦ rw long (ground (arith, memmove_lem name s dirsiz m x, long))
]

-- For a path of `a` slashes, `k` bytes of a name and `b` slashes, whose next byte is no slash and which does not overlap `name`: `skipelem` returns a pointer to that byte; `name` then holds the first 14 bytes of the name, with a NUL after them if they are fewer; and no other byte changed.
pub skipelem_lem :
    (fuel path name a k b : ℕ) (m : Memory)
    → ((i : ℕ) → path ≤ i → i < path + a → is_slash (m i) ≡ true)
    → ((i : ℕ) → path + a ≤ i → i < path + a + suc k → is_name (m i) ≡ true)
    → is_name (m (path + a + suc k)) ≡ false
    → ((i : ℕ) → path + a + suc k ≤ i → i < path + a + suc k + b → is_slash (m i) ≡ true)
    → is_slash (m (path + a + suc k + b)) ≡ false
    → (name + dirsiz ≤ path) ⊎ (path + a + suc k + b < name)
    → a ≤ fuel
    → suc k ≤ fuel
    → b ≤ fuel
    → ((skipelem fuel path name m).0 ≡ some (path + a + suc k + b))
      × ((x : ℕ)
          → (skipelem fuel path name m).1 x ≡ (
              if within name (min (suc k) dirsiz) x
              then m (path + a + (x - name))
              else if ltb (suc k) dirsiz && x == name + suc k
              then 0
              else m x))
unfolding skipelem
skipelem_lem fuel path name a k b m lead elem stop trail next apart fa fk fb =
    let first : is_name (m (path + a)) ≡ true = elem (path + a) (omega arith) (omega arith) in
    let s : skip is_slash fuel path m ≡ path + a =
      skip_lem is_slash fuel path a m lead (ground (arith, first)) fa in
    let e : skip is_name fuel (path + a) m ≡ path + a + suc k =
      skip_lem is_name fuel (path + a) (suc k) m elem stop fk in
    let more : (m (path + a) == 0) ≡ false = ground (arith, first) in
    let len : path + a + suc k - (path + a) ≡ suc k = omega arith in
    let named : Memory = copy_name name (path + a) (suc k) m in
    let kept : (x : ℕ) → path ≤ x → x ≤ path + a + suc k + b → named x ≡ m x =
      λ x h h'. copy_name_lem name (path + a) (suc k) m x ∙ ground (arith, apart) in
    let rest : skip is_slash fuel (path + a + suc k) named ≡ path + a + suc k + b =
      skip_lem is_slash fuel (path + a + suc k) b named
        (λ i h h'. rw (kept i (omega arith) (omega arith)) (trail i h h'))
        (rw (kept (path + a + suc k + b) (omega arith) (omega arith)) next) fb in
    (
      rw (s, e, more, len, rest) refl,
      λ x. rw (s, e, more, len) (copy_name_lem name (path + a) (suc k) m x),
    )
