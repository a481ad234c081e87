-- ===== src/Log/Replay.antt =====
-- The log read as an abstract update of a disk: entry `k` puts `pay k` at the sector `sec k`.
use zv.Prelude.{
  ℕ, zero, suc, ◌≤◌, ◌<◌, ◌≡◌, ◌≢◌, refl, ◌∙◌, inl, inr, arith, update, ◌==◌, if◌then◌else◌,
  Bool-cases, ==_iff, ℕ_discrete,
}
use zv.Block.{Block}

unfoldable pub replay : ℕ → (ℕ → ℕ) → (ℕ → Block) → (ℕ → Block) → ℕ → Block
replay zero sec pay d x = d x
replay (suc k) sec pay d x = if x == sec k then pay k else replay k sec pay d x

pub replay-suc :
    (n : ℕ) (sec : ℕ → ℕ) (pay d : ℕ → Block) (x : ℕ)
    → replay (suc n) sec pay d x ≡ (if x == sec n then pay n else replay n sec pay d x)
unfolding replay
replay-suc n sec pay d x = refl

pub replay_cong :
    (n : ℕ) (sec sec' : ℕ → ℕ) (pay pay' d d' : ℕ → Block) (x : ℕ)
    → ((j : ℕ) → j < n → sec j ≡ sec' j)
    → ((j : ℕ) → j < n → pay j ≡ pay' j)
    → d x ≡ d' x
    → replay n sec pay d x ≡ replay n sec' pay' d' x
unfolding replay
replay_cong zero sec sec' pay pay' d d' x hs hp hd = hd
replay_cong (suc k) sec sec' pay pay' d d' x hs hp hd =
    let rest : replay k sec pay d x ≡ replay k sec' pay' d' x =
      replay_cong k sec sec' pay pay' d d' x (λ j lt. hs j (omega arith))
        (λ j lt. hp j (omega arith)) hd in
    rw (hs k (omega arith), hp k (omega arith), rest)

-- Sectors that the log does not name keep their contents.
pub replay_other :
    (n : ℕ) (sec : ℕ → ℕ) (pay d : ℕ → Block) (x : ℕ)
    → ((j : ℕ) → j < n → x ≢ sec j)
    → replay n sec pay d x ≡ d x
unfolding replay
replay_other zero sec pay d x h = refl
replay_other (suc k) sec pay d x h =
    let ne : x ≢ sec k = h k (omega arith) in
    let rest : replay k sec pay d x ≡ d x =
      replay_other k sec pay d x (λ j lt. h j (omega arith)) in
    ground (arith, ne, rest)

-- A replay over a part of itself: what a crash in the middle left behind does no harm.
pub replay_again :
    (n m : ℕ) (sec : ℕ → ℕ) (pay d : ℕ → Block) (x : ℕ)
    → m ≤ n
    → replay n sec pay (replay m sec pay d) x ≡ replay n sec pay d x
unfolding replay
replay_again zero zero sec pay d x h = refl
replay_again zero (suc m) sec pay d x h = absurd (omega arith)
replay_again (suc k) zero sec pay d x h = refl
replay_again (suc k) (suc m) sec pay d x h = elim (Bool-cases (x == sec k)) [
  | inl e ↦ rw e
  | inr e ↦ elim (ℕ_discrete m k) [
    | yes q ↦ rw e (
        replay_cong k sec sec pay pay _ (replay k sec pay d) x (λ j lt. refl) (λ j lt. refl)
          (rw (q, e))
        ∙ replay_again k k sec pay d x (omega arith))
    | no q ↦ rw e (replay_again k (suc m) sec pay d x (omega arith))
  ]
]

-- A new payload for the one entry that names `sec i`.
pub replay_absorb :
    (n i : ℕ) (sec : ℕ → ℕ) (pay d : ℕ → Block) (b : Block) (x : ℕ)
    → i < n
    → ((j : ℕ) → j < n → j ≢ i → sec j ≢ sec i)
    → replay n sec (update pay i b) d x ≡ (if x == sec i then b else replay n sec pay d x)
unfolding replay
replay_absorb zero i sec pay d b x lt h = absurd (omega arith)
replay_absorb (suc k) i sec pay d b x lt h = elim (ℕ_discrete i k) [
  | yes e ↦
      rw (e, (==_iff k k).1 refl)
        (elim (Bool-cases (x == sec k)) [
          | inl hit ↦ rw hit
          | inr miss ↦ rw miss (
              replay_cong k sec sec (update pay k b) pay d d x (λ j l. refl) (λ j l. ground arith)
                refl)
        ])
  | no ne ↦
      let rest : replay k sec (update pay i b) d x
          ≡ (if x == sec i then b else replay k sec pay d x) =
        replay_absorb k i sec pay d b x (omega arith) (λ j l q. h j (omega arith) q) in
      let apart : sec k ≢ sec i = h k (omega arith) (λ q. ne (omega arith)) in
      ground (arith, rest, apart)
]

-- With distinct sectors an entry's payload is what its sector shows.
pub replay_entry :
    (n t : ℕ) (sec : ℕ → ℕ) (pay d : ℕ → Block)
    → t < n
    → ((i j : ℕ) → i < n → j < n → i ≢ j → sec i ≢ sec j)
    → replay n sec pay d (sec t) ≡ pay t
unfolding replay
replay_entry zero t sec pay d lt apart = absurd (omega arith)
replay_entry (suc k) t sec pay d lt apart = elim (ℕ_discrete t k) [
  | yes e ↦ rw (e, (==_iff (sec k) (sec k)).1 refl)
  | no ne ↦
      let miss : sec t ≢ sec k = apart t k lt (omega arith) ne in
      let rest : replay k sec pay d (sec t) ≡ pay t =
        replay_entry k t sec pay d (omega arith)
          (λ i j hi hj. apart i j (omega arith) (omega arith)) in
      ground (arith, miss, rest)
]
