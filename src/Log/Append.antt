-- ===== src/Log/Append.antt =====
-- `log_write` (log.c) with its log absorption keeps a transaction's invariant.
use zv.Prelude.{
  ℕ, zero, suc, ◌+◌, ◌-◌, ◌≤◌, ◌<◌, ◌≡◌, ◌≢◌, refl, sym, ◌∙◌, ◌⊎◌, inl, inr, arith, update, ◌==◌,
  ==_iff, if◌then◌else◌, ℕ_discrete, dec_lt, Bool-cases, ok,
}
use zv.Block.{Block}
use zv.Disk.{Store, bread, bwrite, modify}
use zv.Log.{Log, log_size, find_slot}
use zv.Log.Replay.{replay, replay-suc, replay_cong, replay_absorb}
use zv.Log.Install.{logged}
use zv.Log.Transaction.{write_block, Logging}

-- `find_slot` gives the sector's entry, or the first free one.
find_slot_found :
    (k i : ℕ) (sec : ℕ → ℕ) (b : ℕ)
    → (i ≤ find_slot k i sec b)
      × (find_slot k i sec b ≤ i + k)
      × ((j : ℕ) → i ≤ j → j < find_slot k i sec b → sec j ≢ b)
      × (find_slot k i sec b < i + k → sec (find_slot k i sec b) ≡ b)
unfolding find_slot
find_slot_found zero i sec b =
    (omega arith, omega arith, (λ j h lt. absurd (omega arith)), λ h. absurd (omega arith))
find_slot_found (suc k) i sec b =
    let r = find_slot_found k (suc i) sec b in
    elim (Bool-cases (sec i == b)) [
      | inl hit ↦
          rw hit
            (omega arith, omega arith, (λ j h lt. absurd (omega arith)), λ h. (==_iff _ b).0 hit)
      | inr miss ↦ rw miss (
        omega arith,
        omega arith,
        (λ j h lt. elim (ℕ_discrete i j) [
          | yes e ↦ λ q. ground (arith, e, q)
          | no ne ↦ r.2 j (omega arith) lt
        ]),
        (λ h. r.3 (omega arith)),
      )
    ]

-- What `log_write` makes of the log and the store when it does not panic.
appended : Log → Store → ℕ → Block → Log × Store
appended l s x b =
    let i = find_slot l.n 0 l.sector x in
    (
      record l { n = if i == l.n then suc l.n else l.n; sector = update l.sector i x },
      bwrite (modify s x b) (l.start + i + 1) b,
    )

write_block_cases :
    (l : Log) (s : Store) (x : ℕ) (b : Block) (r : Log × Store)
    → write_block l s x b ≡ ok r
    → (l.n < log_size) × (l.n < l.size - 1) × (r ≡ appended l s x b)
unfolding write_block appended modify bread
write_block_cases l s x b r e = ground (arith, ==_iff x x)

module _ {d0 : ℕ → Block} {l : Log} {s : Store} (g : Logging d0 l s) (x : ℕ) (b : Block)
    (lt : x < l.start) where
  abbrev slot : ℕ
  slot = find_slot l.n 0 l.sector x

  abbrev l' : Log
  l' = (appended l s x b).0

  abbrev s' : Store
  s' = (appended l s x b).1

  -- Entries in use after the write are the slot and the old ones.
  appended_n : (j : ℕ) → j < l'.n → j ≢ slot → j < l.n
  unfolding appended
  appended_n j h ne = ground (arith, find_slot_found l.n 0 l.sector x)

  slot_ne : (j : ℕ) → j < l.n → j ≢ slot → l.sector j ≢ x
  slot_ne j h ne e = elim (dec_lt j slot) [
    | yes before ↦ (find_slot_found l.n 0 l.sector x).2 j (omega arith) before e
    | no after ↦
        let inside : slot < l.n = omega arith in
        g.distinct j slot h inside ne (e ∙ sym ((find_slot_found l.n 0 l.sector x).3 (omega arith)))
  ]

  appended-homes : (j : ℕ) → j < l'.n → l'.sector j < l'.start
  unfolding appended
  appended-homes j h = elim (ℕ_discrete j slot) [
    | yes e ↦ ground (arith, e)
    | no ne ↦ ground (arith, ne, g.homes j (appended_n j h ne))
  ]

  appended-distinct : (i j : ℕ) → i < l'.n → j < l'.n → i ≢ j → l'.sector i ≢ l'.sector j
  unfolding appended
  appended-distinct i j hi hj ne = elim (ℕ_discrete i slot) [
    | yes e ↦
        let nj : j ≢ slot = λ q. ne (omega arith) in
        ground (arith, e, nj, slot_ne j (appended_n j hj nj) nj)
    | no ni ↦ elim (ℕ_discrete j slot) [
      | yes e ↦ ground (arith, e, ni, slot_ne i (appended_n i hi ni) ni)
      | no nj ↦ ground (arith, ni, nj, g.distinct i j (appended_n i hi ni) (appended_n j hj nj) ne)
    ]
  ]

  appended-logged : (j : ℕ) → logged l.start s'.view j ≡ update (logged l.start s.view) slot b j
  unfolding appended bwrite modify
  appended-logged j = ground arith

  appended-view_home : (y : ℕ) → y < l.start → s'.view y ≡ (if y == x then b else s.view y)
  unfolding appended bwrite modify
  appended-view_home y h = ground arith

  appended_sector : (j : ℕ) → l'.sector j ≡ (if j == slot then x else l.sector j)
  unfolding appended
  appended_sector j = refl

  appended_n_last : slot ≡ l.n → l'.n ≡ suc l.n
  unfolding appended
  appended_n_last e = ground (arith, e)

  appended_n_within : slot < l.n → l'.n ≡ l.n
  unfolding appended
  appended_n_within h = ground (arith, h)

  appended_last :
      slot ≡ l.n
      → (y : ℕ) → y < l.start
      → replay l'.n l'.sector (logged l.start s'.view) d0 y ≡ (if y == x then b else s.view y)
  appended_last e y h =
      let old : replay l.n l'.sector (logged l.start s'.view) d0 y ≡ s.view y =
        replay_cong l.n _ l.sector _ (logged l.start s.view) d0 d0 y
          (λ j lt. ground (arith, appended_sector j, e))
          (λ j lt. appended-logged j ∙ ground (arith, e)) refl
        ∙ sym (g.view y h) in
      let new : logged l.start s'.view l.n ≡ b = appended-logged l.n ∙ ground (arith, e) in
      let key : l'.sector l.n ≡ x = ground (arith, appended_sector l.n, e) in
      rw (appended_n_last e, replay-suc, key, new, old)

  appended_within :
      slot < l.n
      → (y : ℕ) → y < l.start
      → replay l'.n l'.sector (logged l.start s'.view) d0 y ≡ (if y == x then b else s.view y)
  appended_within in_use y h =
      let hit : l.sector slot ≡ x = (find_slot_found l.n 0 l.sector x).3 (omega arith) in
      rw (appended_n_within in_use) (
        replay_cong l.n _ l.sector _ (update (logged l.start s.view) slot b) d0 d0 y
          (λ j lt. ground (arith, appended_sector j, hit)) (λ j lt. appended-logged j) refl
        ∙ replay_absorb l.n slot l.sector _ d0 b y in_use (λ j lt ne. rw hit (slot_ne j lt ne))
        ∙ rw (hit, ← g.view y h))

  appended-disk : (y : ℕ) → y ≤ l.start → s'.disk y ≡ s.disk y
  unfolding appended bwrite modify
  appended-disk y h = ground arith

  appended-durable :
      (s'.power ≡ 0) ⊎ ((j : ℕ) → j < l'.n → s'.view (l.start + j + 1) ≡ s'.disk (l.start + j + 1))
  unfolding appended bwrite modify
  appended-durable = elim (ℕ_discrete s.power 0) [
    | yes dead ↦ inl (omega arith)
    | no alive ↦ inr λ j h. elim (ℕ_discrete j slot) [
      | yes e ↦ ground (arith, e, alive)
      | no ne ↦ elim g.durable [
        | inl dead ↦ absurd (alive dead)
        | inr kept ↦ ground (arith, ne, alive, kept j (appended_n j h ne))
      ]
    ]
  ]

  appended-view :
      (y : ℕ) → y < l.start → s'.view y ≡ replay l'.n l'.sector (logged l.start s'.view) d0 y
  appended-view y h = appended-view_home y h ∙ elim (ℕ_discrete slot l.n) [
    | yes e ↦ sym (appended_last e y h)
    | no ne ↦ sym (appended_within (omega (arith, (find_slot_found l.n 0 l.sector x).1)) y h)
  ]

  appended-small : l.n < log_size → l'.n ≤ log_size
  unfolding appended
  appended-small h = ground arith

  appended-frame : (l'.start ≡ l.start) × (l'.busy ≡ l.busy) × (l'.size ≡ l.size)
  unfolding appended
  appended-frame = (refl, refl, refl)

  appended-Logging : l.n < log_size → Logging d0 l' s'
  unfolding appended
  appended-Logging h = record {
    active = g.active;
    small = appended-small h;
    room = g.room;
    homes = appended-homes;
    distinct = appended-distinct;
    view = appended-view;
    disk = λ y lt. appended-disk y (omega arith) ∙ g.disk y lt;
    clean = rw (appended-disk l.start (omega arith)) g.clean;
    durable = appended-durable;
  }

-- A block write that is accepted keeps the transaction's invariant, and the cache shows the block.
pub write_block-Logging :
    (d0 : ℕ → Block) (l : Log) (s : Store) (x : ℕ) (b : Block) (r : Log × Store)
    → Logging d0 l s
    → x < l.start
    → write_block l s x b ≡ ok r
    → Logging d0 r.0 r.1
      × (r.0.start ≡ l.start)
      × ((y : ℕ) → y < l.start → r.1.view y ≡ (if y == x then b else s.view y))
write_block-Logging d0 l s x b r g lt e =
    let (small, room, q) = write_block_cases l s x b r e in
    rw q (appended-Logging g x b lt small, (appended-frame g x b lt).0, appended-view_home g x b lt)
