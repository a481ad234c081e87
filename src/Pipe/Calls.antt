-- ===== src/Pipe/Calls.antt =====
-- `pipewrite` and `piperead` (pipe.c) against the pipe as a queue.
use mathlib.Core.List.{append_assoc, append-nil}
use zv.Prelude.{
  ℕ, zero, suc, ◌≡◌, refl, sym, ap, ◌∙◌, ◌⊎◌, inl, inr, min, Bool, true, false, ◌&&◌, ◌||◌, not,
  arith, Bool-cases, List, [], ◌∷◌, ◌++◌, length,
}
use zv.Pipe.{
  Pipe, is_full, is_empty, push, next_byte, pull, Written, done, failed, asleep, pipewrite, Read,
  bytes, refused, waiting, read_loop, piperead,
}
use zv.Pipe.Queue.{
  IsValid, count, queue, push-IsValid, queue-push, count-pull, pull-IsValid, queue-pull,
  is_empty_lem,
}

-- The bytes that a call has not written when it ends or falls asleep.
abbrev pub left : Written → List ℕ
left done = []
left (failed bs) = bs
left (asleep bs) = bs

-- Why a call ended: all is written; or the pipe is full, and there is no reader or the process was
-- killed; or it is full, and the call sleeps.
abbrev pub Because : Pipe → Bool → Written → Type 0
Because p killed done = Unit {0}
Because p killed (failed _) = (is_full p ≡ true) × ((not p.readopen || killed) ≡ true)
Because p killed (asleep _) = (is_full p ≡ true) × ((not p.readopen || killed) ≡ false)

push-flags :
    (p : Pipe) (b : ℕ) → ((push p b).readopen ≡ p.readopen) × ((push p b).writeopen ≡ p.writeopen)
unfolding push
push-flags p b = (refl, refl)

-- Whatever `pipewrite` does, it appends a first part of its bytes to the queue, in order; the rest is
-- what it reports as left; it stops early only for the stated reasons; and the open ends stay.
pub pipewrite-queue :
    (p : Pipe) (killed : Bool) (bs : List ℕ)
    → IsValid p
    → (ws : List ℕ) × (bs ≡ ws ++ left (pipewrite p killed bs).1)
      × (queue (pipewrite p killed bs).0 ≡ queue p ++ ws)
      × IsValid (pipewrite p killed bs).0
      × Because (pipewrite p killed bs).0 killed (pipewrite p killed bs).1
      × ((pipewrite p killed bs).0.readopen ≡ p.readopen)
      × ((pipewrite p killed bs).0.writeopen ≡ p.writeopen)
unfolding pipewrite
pipewrite-queue p killed [] v = ([], refl, sym (append-nil (queue p)), v, tt, refl, refl)
pipewrite-queue p killed (b ∷ bs) v = elim (Bool-cases (is_full p)) [
  | inl full ↦ elim (Bool-cases (not p.readopen || killed)) [
    | inl broken ↦
        rw (full, broken) ([], refl, sym (append-nil (queue p)), v, (full, broken), refl, refl)
    | inr alive ↦
        rw (full, alive) ([], refl, sym (append-nil (queue p)), v, (full, alive), refl, refl)
  ]
  | inr room ↦
      let (ws, split, q, v', why, r, w) =
        pipewrite-queue (push p b) killed bs (push-IsValid p b v room) in
      rw room (
        b ∷ ws,
        ap (◌∷◌ b) split,
        q ∙ ap (λ l. l ++ ws) (queue-push p b v room) ∙ append_assoc (queue p) (b ∷ []) ws,
        v',
        why,
        r ∙ (push-flags p b).0,
        w ∙ (push-flags p b).1,
      )
]

pull-flags : (p : Pipe) → ((pull p).readopen ≡ p.readopen) × ((pull p).writeopen ≡ p.writeopen)
unfolding pull
pull-flags p = (refl, refl)

pub read_loop-queue :
    (n : ℕ) (p : Pipe)
    → IsValid p
    → (queue p ≡ (read_loop n p).1 ++ queue (read_loop n p).0)
      × (length (read_loop n p).1 ≡ min n (count p))
      × IsValid (read_loop n p).0
      × ((read_loop n p).0.readopen ≡ p.readopen)
      × ((read_loop n p).0.writeopen ≡ p.writeopen)
unfolding read_loop
read_loop-queue zero p v = (refl, omega arith, v, refl, refl)
read_loop-queue (suc n) p v = elim (Bool-cases (is_empty p)) [
  | inl none_left ↦ rw none_left (refl, ground (arith, is_empty_lem p v), v, refl, refl)
  | inr some_left ↦
      let (q, len, v', r, w) = read_loop-queue n (pull p) (pull-IsValid p v some_left) in
      rw some_left (
        queue-pull p v some_left ∙ ap (◌∷◌ (next_byte p)) q,
        omega (arith, count-pull p v some_left),
        v',
        r ∙ (pull-flags p).0,
        w ∙ (pull-flags p).1,
      )
]

-- What `piperead` reports.
abbrev pub Reads : Pipe → Pipe → Bool → ℕ → Read → Type 0
Reads p p' killed n (bytes bs) =
    (queue p ≡ bs ++ queue p')
    × (length bs ≡ min n (count p))
    × ((is_empty p ≡ false) ⊎ (p.writeopen ≡ false))
Reads p p' killed n refused =
    (p' ≡ p) × (is_empty p ≡ true) × (p.writeopen ≡ true) × (killed ≡ true)
Reads p p' killed n waiting =
    (p' ≡ p) × (is_empty p ≡ true) × (p.writeopen ≡ true) × (killed ≡ false)

-- `piperead` takes the first bytes of the queue, as many as are asked for and there; it does so when
-- there are bytes or no writer is left; else it returns -1 if the process was killed, or sleeps, and
-- takes nothing.
pub piperead-queue :
    (p : Pipe) (killed : Bool) (n : ℕ)
    → IsValid p
    → Reads p (piperead p killed n).0 killed n (piperead p killed n).1
      × IsValid (piperead p killed n).0
unfolding piperead
piperead-queue p killed n v = elim (Bool-cases (is_empty p && p.writeopen)) [
  | inl dry ↦ elim (Bool-cases killed) [
    | inl k ↦ rw (dry, k) ((refl, ground arith, ground arith, refl), v)
    | inr k ↦ rw (dry, k) ((refl, ground arith, ground arith, refl), v)
  ]
  | inr wet ↦ let (q, len, v', r, w) = read_loop-queue n p v in rw wet ((q, len, ground arith), v')
]
