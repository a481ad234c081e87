-- ===== src/Pipe/Queue.antt =====
-- The ring buffer of pipe.c is a queue of at most PIPESIZE bytes, also when its counters wrap around.
use zv.Prelude.{
  ℕ, zero, suc, ◌+◌, ◌-◌, ◌%◌, ◌≤◌, ◌<◌, ◌≡◌, ◌≢◌, refl, ◌∙◌, true, false, arith, ◌==◌, ==_iff,
  update, List, [], ◌∷◌, ◌++◌, length, ap, ap₂, sym, ◌≡⟨◌⟩◌, ◌∎,
}
use zv.Pipe.{Pipe, pipe_size, uint_mod, is_full, is_empty, push, next_byte, pull}

-- How many bytes are in the pipe.
abbrev pub count : Pipe → ℕ
count p = (p.nwrite + uint_mod - p.nread) % uint_mod

pub record IsValid (p : Pipe) : Type 0 where
  pub reads : p.nread < uint_mod
  pub writes : p.nwrite < uint_mod
  pub fits : count p ≤ pipe_size

-- The `k` bytes from the counter value `i` on.
unfoldable pub bytes_from : ℕ → ℕ → (ℕ → ℕ) → List ℕ
bytes_from zero i c = []
bytes_from (suc k) i c = c (i % pipe_size) ∷ bytes_from k ((i + 1) % uint_mod) c

unfoldable pub queue : Pipe → List ℕ
unfolding bytes_from
queue p = bytes_from (count p) p.nread p.contents

length-bytes_from : (k i : ℕ) (c : ℕ → ℕ) → length (bytes_from k i c) ≡ k
unfolding bytes_from
length-bytes_from zero i c = refl
length-bytes_from (suc k) i c = omega (arith, length-bytes_from k ((i + 1) % uint_mod) c)

pub length-queue : (p : Pipe) → length (queue p) ≡ count p
unfolding queue
length-queue p = length-bytes_from (count p) p.nread p.contents

bytes_from-update :
    (k i slot b : ℕ) (c : ℕ → ℕ)
    → ((j : ℕ) → j < k → (i + j) % pipe_size ≢ slot)
    → bytes_from k i (update c slot b) ≡ bytes_from k i c
unfolding bytes_from
bytes_from-update zero i slot b c apart = refl
bytes_from-update (suc k) i slot b c apart =
    let first : i % pipe_size ≢ slot = λ e. apart 0 (omega arith) (omega arith) in
    let rest : bytes_from k ((i + 1) % uint_mod) (update c slot b)
        ≡ bytes_from k ((i + 1) % uint_mod) c =
      bytes_from-update k ((i + 1) % uint_mod) slot b c
        (λ j lt e. apart (suc j) (omega arith) (omega arith)) in
    ground (arith, first, rest)

bytes_from_snoc :
    (k i : ℕ) (c : ℕ → ℕ)
    → bytes_from (suc k) i c ≡ bytes_from k i c ++ c ((i + k) % pipe_size) ∷ []
unfolding bytes_from
bytes_from_snoc zero i c =
    let e : i % pipe_size ≡ (i + 0) % pipe_size = omega arith in ap (λ a. c a ∷ []) e
bytes_from_snoc (suc k) i c =
    let e : ((i + 1) % uint_mod + k) % pipe_size ≡ (i + suc k) % pipe_size = omega arith in
    ap (◌∷◌ (c (i % pipe_size))) (
      bytes_from_snoc k ((i + 1) % uint_mod) c
      ∙ ap (λ a. bytes_from k ((i + 1) % uint_mod) c ++ c a ∷ []) e)

-- A full pipe is one with PIPESIZE bytes, an empty one has none.
pub is_full_lem : (p : Pipe) → IsValid p → is_full p ≡ (count p == pipe_size)
unfolding is_full
is_full_lem p v = ground arith

pub is_empty_lem : (p : Pipe) → IsValid p → is_empty p ≡ (count p == 0)
unfolding is_empty
is_empty_lem p v = ground arith

count-push : (p : Pipe) (b : ℕ) → IsValid p → is_full p ≡ false → count (push p b) ≡ suc (count p)
unfolding is_full push
count-push p b v f = ground arith

pub push-IsValid : (p : Pipe) (b : ℕ) → IsValid p → is_full p ≡ false → IsValid (push p b)
unfolding push is_full
push-IsValid p b v f = ground arith

-- A byte that is pushed goes to the end of the queue.
pub queue-push :
    (p : Pipe) (b : ℕ) → IsValid p → is_full p ≡ false → queue (push p b) ≡ queue p ++ b ∷ []
unfolding queue push
queue-push p b v f =
    let k = count p in
    let c = update p.contents (p.nwrite % pipe_size) b in
    let room : k < pipe_size = ground (arith, is_full_lem p v, v.fits) in
    let slot : (p.nread + k) % pipe_size ≡ p.nwrite % pipe_size = ground arith in
    bytes_from (count (push p b)) p.nread c
    ≡⟨ ap (λ n. bytes_from n p.nread c) (count-push p b v f) ⟩ bytes_from (suc k) p.nread c
    ≡⟨ bytes_from_snoc k p.nread c ⟩ bytes_from k p.nread c ++ c ((p.nread + k) % pipe_size) ∷ []
    ≡⟨ ap₂ (λ (l : List ℕ) (a : ℕ). l ++ a ∷ [])
        (bytes_from-update k p.nread (p.nwrite % pipe_size) b p.contents
          (λ j lt e. ground (arith, slot, e)))
        (ap c slot ∙ ground (arith, ==_iff (p.nwrite % pipe_size) (p.nwrite % pipe_size))) ⟩
      queue p ++ b ∷ [] ∎

pub count-pull : (p : Pipe) → IsValid p → is_empty p ≡ false → suc (count (pull p)) ≡ count p
unfolding is_empty pull
count-pull p v e = ground arith

pub pull-IsValid : (p : Pipe) → IsValid p → is_empty p ≡ false → IsValid (pull p)
unfolding is_empty pull
pull-IsValid p v e = ground arith

-- The byte that is read next is the head of the queue.
pub queue-pull :
    (p : Pipe) → IsValid p → is_empty p ≡ false → queue p ≡ next_byte p ∷ queue (pull p)
unfolding queue bytes_from next_byte
queue-pull p v e = ap (λ n. bytes_from n p.nread p.contents) (sym (count-pull p v e)) ∙ same
  where
    same :
        bytes_from (suc (count (pull p))) p.nread p.contents
        ≡ next_byte p ∷ bytes_from (count (pull p)) (pull p).nread (pull p).contents
    same = unfold pull in refl

pub queue_empty : (p : Pipe) → IsValid p → is_empty p ≡ true → queue p ≡ []
unfolding queue
queue_empty p v e =
    let z : count p ≡ 0 = ground (arith, is_empty_lem p v) in
    ap (λ n. bytes_from n p.nread p.contents) z ∙ unfold bytes_from in refl
