-- ===== src/Fs/Ilock/Verified.antt =====
-- An inode that `ilock` (fs.c) reads and returns as good has contents that match its checksum.
use zv.Prelude.{
  ℕ, zero, suc, ◌≡◌, ◌≢◌, ◌⊎◌, refl, sym, ◌∙◌, inl, inr, arith, true, false, ◌==◌, if◌then◌else◌,
  Bool-cases, Option, Option-cases, some, get_elem?, set, Result, ok, waits, ℤ, pos, negsuc,
}
use zv.Fs.{Inode, Fs, M, pure, fail, ◌>>=◌, ◌>>◌, bind_ok, seq_ok}
use zv.Fs.Content.{load, store_inode, DeviceRead}
use zv.Fs.Icache.{iget, iunlock}
use zv.Fs.Ilock.{
  ichecksum, e_corrupted, succeed, give_up, try_replica, check, verify, read_inode, ilock_ext,
}

-- The last thing that was done: the sum of the contents was found to be the checksum of the inode,
-- whose type is not 0, and the inode was marked as valid.
pub record Verified (devsw : ℕ → Option DeviceRead) (ip : ℕ) (t : Fs) : Type 0 where
  pub before : Fs
  pub after : Fs
  pub sum : ℕ
  pub inode : Inode
  pub summed : ichecksum devsw ip before ≡ ok (sum, after)
  pub found : get_elem? after.icache ip ≡ some inode
  pub matches : sum ≡ inode.checksum
  pub typed : inode.type ≢ 0
  pub marked : t ≡ record after { icache = set after.icache ip (record inode { valid = true }) }

load_ok :
    (ip : ℕ) (p : Inode) (s t : Fs)
    → load ip s ≡ ok (p, t)
    → (get_elem? s.icache ip ≡ some p) × (s ≡ t)
unfolding load
load_ok ip p s t e = elim (Option-cases (get_elem? s.icache ip)) [
  | inl gone ↦ ground (arith, gone, e)
  | inr (q, got) ↦
      let h : ◌≡◌ {A = Result (Inode × Fs)} (ok (q, s)) (ok (p, t)) =
        sym (rw (load, got) refl) ∙ e in
      (ground (arith, got, h), ground (arith, h))
]

load-some : (ip : ℕ) (p : Inode) (s : Fs) → get_elem? s.icache ip ≡ some p → load ip s ≡ ok (p, s)
unfolding load
load-some ip p s e = rw (load, e) refl

succeed_ok :
    (ip : ℕ) (s t : Fs) (p : Inode)
    → get_elem? s.icache ip ≡ some p
    → succeed ip s ≡ ok (pos 0, t)
    → (p.type ≢ 0) × (t ≡ record s { icache = set s.icache ip (record p { valid = true }) })
unfolding succeed store_inode
succeed_ok ip s t p got e =
    let done : (if p.type == 0 then fail "ilock: no type" else pure (pos 0))
          (record s { icache = set s.icache ip (record p { valid = true }) })
        ≡ ok (pos 0, t) =
      sym (rw (load-some ip p s got, ◌>>=◌) refl) ∙ e in
    elim (Bool-cases (p.type == 0)) [
      | inl none_type ↦ let h = rw none_type at done in cc
      | inr typed ↦ let h = rw typed at done in (ground (arith, typed), ground (arith, h))
    ]

give_up_ok : (ip : ℕ) (s t : Fs) (r : ℤ) → give_up ip s ≡ ok (r, t) → r ≡ e_corrupted
unfolding give_up
give_up_ok ip s t r e =
    let (u, first, rest) = seq_ok (iunlock ip) (pure e_corrupted) s r t e in ground (arith, rest)

not_corrupted : ◌≢◌ {A = ℤ} (pos 0) e_corrupted
not_corrupted e = cc

module _ (devsw : ℕ → Option DeviceRead) (ip : ℕ) where
  summed-Verified :
      (sum : ℕ) (p : Inode) (s u v t : Fs)
      → ichecksum devsw ip s ≡ ok (sum, u)
      → load ip u ≡ ok (p, v)
      → (sum == p.checksum) ≡ true
      → succeed ip v ≡ ok (pos 0, t)
      → Verified devsw ip t
  summed-Verified sum p s u v t summed got hit e =
      let (found, same) = load_ok ip p u v got in
      let (typed, marked) = succeed_ok ip u t p found (rw same e) in
      record {
        before = s;
        after = u;
        sum = sum;
        inode = p;
        summed = summed;
        found = found;
        matches = ground (arith, hit);
        typed = typed;
        marked = marked;
      }

  -- The contents are good, or the alternative was taken.
  check_ok :
      (otherwise : Inode → M ℤ) (s t : Fs)
      → check devsw ip otherwise s ≡ ok (pos 0, t)
      → Verified devsw ip t ⊎ ((p : Inode) × (v : Fs) × (otherwise p v ≡ ok (pos 0, t)))
  unfolding check
  check_ok otherwise s t e =
      let (sum, u, summed, e1) = bind_ok (ichecksum devsw ip) _ s (pos 0) t e in
      let (p, v, got, e2) = bind_ok (load ip) _ u (pos 0) t e1 in decide sum p u v summed got e2
    where
      decide :
          (sum : ℕ) (p : Inode) (u v : Fs)
          → ichecksum devsw ip s ≡ ok (sum, u)
          → load ip u ≡ ok (p, v)
          → (if sum == p.checksum then succeed ip else otherwise p) v ≡ ok (pos 0, t)
          → Verified devsw ip t ⊎ ((p : Inode) × (v : Fs) × (otherwise p v ≡ ok (pos 0, t)))
      decide sum p u v summed got h = elim (Bool-cases (sum == p.checksum)) [
        | inl hit ↦ inl (summed-Verified sum p s u v t summed got hit (sym (rw hit refl) ∙ h))
        | inr miss ↦ inr (p, v, sym (rw miss refl) ∙ h)
      ]

  try_replica_ok :
      (lock : ℕ → M ℤ) (rinum : ℕ) (again : M ℤ) (s t : Fs)
      → try_replica lock ip rinum again s ≡ ok (pos 0, t)
      → (u : Fs) × (again u ≡ ok (pos 0, t))
  unfolding try_replica
  try_replica_ok lock rinum again s t e = elim (Bool-cases (rinum == 0)) [
    | inl alone ↦ absurd (not_corrupted (give_up_ok ip s t (pos 0) (rw (try_replica, alone) at e)))
    | inr other ↦
        let (c, w, took, e1) = bind_ok (iget rinum) _ s (pos 0) t (rw (try_replica, other) at e) in
        let (r, x, locked, e2) = bind_ok (lock c) _ w (pos 0) t e1 in settle r c x other e2
  ]
    where
      settle :
          (r : ℤ) (c : ℕ) (x : Fs)
          → (rinum == 0) ≡ false
          → ◌≡◌ {A = Result (ℤ × Fs)}
              (elim r as (λ _. M ℤ) [
                | pos zero ↦ iunlock c >> (iunlock ip >> pure (pos rinum))
                | _ ↦ again
              ]
                x)
              (ok (pos 0, t))
          → (u : Fs) × (again u ≡ ok (pos 0, t))
      settle (pos zero) c x other h =
          let (y, first, h1) = seq_ok (iunlock c) (iunlock ip >> pure (pos rinum)) x (pos 0) t h in
          let (z, second, h2) = seq_ok (iunlock ip) (pure (pos rinum)) y (pos 0) t h1 in
          ground (arith, other, h2)
      settle (pos (suc n)) c x other h = (x, h)
      settle (negsuc n) c x other h = (x, h)

  verify-Verified :
      (lock : ℕ → M ℤ) (left : ℕ) (s t : Fs)
      → verify devsw lock left ip s ≡ ok (pos 0, t)
      → Verified devsw ip t
  unfolding verify
  verify-Verified lock zero s t e = elim (check_ok _ s t e) [
    | inl good ↦ good
    | inr (p, v, h) ↦ absurd (not_corrupted (give_up_ok ip v t (pos 0) h))
  ]
  verify-Verified lock (suc left) s t e = elim (check_ok _ s t e) [
    | inl good ↦ good
    | inr (p, v, h) ↦
        let (u, e') = try_replica_ok lock _ _ v t h in verify-Verified lock left u t e'
  ]

  -- `ilock` of an inode whose fields are not in memory: if it returns 0, then the last thing it did was to find that the sum of the inode's contents is its checksum and that its type is not 0, and to mark it as valid.
  pub ilock_ext-Verified :
      (fuel : ℕ) (p : Inode) (s t : Fs)
      → get_elem? s.icache ip ≡ some p
      → p.valid ≡ false
      → ilock_ext fuel devsw ip true s ≡ ok (pos 0, t)
      → Verified devsw ip t
  unfolding ilock_ext store_inode
  ilock_ext-Verified zero p s t got stale e = cc
  ilock_ext-Verified (suc fuel) p s t got stale e =
      let checked : M ℤ = verify devsw (λ c. ilock_ext fuel devsw c true) 2 ip in
      let rest : M ℤ = if p.valid then pure (pos 0) else (read_inode ip >> checked) in
      let r : M ℤ = store_inode ip (record p { busy = true }) >> rest in
      let h : (if p.ref == 0 then fail "ilock" else (if p.busy then (λ s. waits) else r)) s
          ≡ ok (pos 0, t) =
        sym (rw (load-some ip p s got, ◌>>=◌) refl) ∙ e in
      elim (Bool-cases (p.ref == 0)) [
        | inl unused ↦ let g = rw unused at h in cc
        | inr used ↦ elim (Bool-cases p.busy) [
          | inl held ↦ let g = rw (used, held) at h in cc
          | inr free ↦
              let g : r s ≡ ok (pos 0, t) = rw (used, free) at h in
              let (u, marked, e1) =
                seq_ok (store_inode ip (record p { busy = true })) rest s (pos 0) t g in
              let (v, loaded, e2) = seq_ok (read_inode ip) checked u (pos 0) t (rw stale at e1) in
              verify-Verified _ 2 v t e2
        ]
      ]
