-- ===== src/Pipe/History.antt =====
-- Readers and writers of one pipe (pipe.c) in any order: what is read is what was written, in order.
use mathlib.Core.List.{append_assoc, append_cancel_right}
use zv.Prelude.{ℕ, ◌≤◌, length, arith, true, false, ◌≡◌, refl, sym, ap, ◌∙◌, Bool, List, [], ◌++◌}
use zv.Pipe.{Pipe, pipe_size, fresh, pipeclose, pipewrite, Read, bytes, refused, waiting, piperead}
use zv.Pipe.Queue.{IsValid, queue, bytes_from, length-queue}
use zv.Pipe.Calls.{left, Reads, pipewrite-queue, piperead-queue}

-- A pipe with all the bytes that went in and all that came out.
pub record Run : Type 0 where
  pub pipe : Pipe
  pub sent : List ℕ
  pub received : List ℕ

abbrev pub bytes_of : Read → List ℕ
bytes_of (bytes bs) = bs
bytes_of refused = []
bytes_of waiting = []

-- One call, or one stretch of a call between two sleeps.  Of the bytes `bs` of a write, `ws` went in.
pub data Step : Run → Run → Type 0 where
  write :
      (s : Run) (killed : Bool) (bs ws : List ℕ)
      → bs ≡ ws ++ left (pipewrite s.pipe killed bs).1
      → Step s (record s { pipe = (pipewrite s.pipe killed bs).0; sent = s.sent ++ ws })
  read :
      (s : Run) (killed : Bool) (n : ℕ)
      → Step s (record s {
        pipe = (piperead s.pipe killed n).0;
        received = s.received ++ bytes_of (piperead s.pipe killed n).1;
      })
  close : (s : Run) (writable : Bool) → Step s (record s { pipe = (pipeclose s.pipe writable).0 })

pub data Reach (s : Run) : Run → Type 0 where
  here : Reach s s
  next : {t u : Run} → Reach s t → Step t u → Reach s u

pub record IsFifo (s : Run) : Type 0 where
  pub valid : IsValid s.pipe
  pub in_order : s.sent ≡ s.received ++ queue s.pipe

pipeclose-queue : (p : Pipe) (writable : Bool) → queue (pipeclose p writable).0 ≡ queue p
unfolding pipeclose queue
pipeclose-queue p true = refl
pipeclose-queue p false = refl

pipeclose-IsValid : (p : Pipe) (writable : Bool) → IsValid p → IsValid (pipeclose p writable).0
unfolding pipeclose
pipeclose-IsValid p true v = ground arith
pipeclose-IsValid p false v = ground arith

read-queue :
    (p : Pipe) (killed : Bool) (n : ℕ)
    → IsValid p
    → queue p ≡ bytes_of (piperead p killed n).1 ++ queue (piperead p killed n).0
read-queue p killed n v =
    go (piperead p killed n).0 (piperead p killed n).1 (piperead-queue p killed n v).0
  where
    go : (p' : Pipe) (r : Read) → Reads p p' killed n r → queue p ≡ bytes_of r ++ queue p'
    go p' (bytes bs) h = h.0
    go p' refused h = rw h.0
    go p' waiting h = rw h.0

Step-IsFifo : {s t : Run} → Step s t → IsFifo s → IsFifo t
Step-IsFifo (write s killed bs ws e) f =
    let (ws', e', q, v, why, r, w) = pipewrite-queue s.pipe killed bs f.valid in
    let same : ws' ≡ ws = append_cancel_right ws' ws _ (sym e' ∙ e) in
    record {
      valid = v;
      in_order =
          ap (λ l. l ++ ws) f.in_order
          ∙ append_assoc s.received (queue s.pipe) ws
          ∙ ap (λ l. s.received ++ l) (ap (λ l. queue s.pipe ++ l) (sym same) ∙ sym q);
    }
Step-IsFifo (read s killed n) f = record {
  valid = (piperead-queue s.pipe killed n f.valid).1;
  in_order =
      f.in_order
      ∙ ap (λ l. s.received ++ l) (read-queue s.pipe killed n f.valid)
      ∙ sym (append_assoc s.received _ _);
}
Step-IsFifo (close s writable) f = record {
  valid = pipeclose-IsValid s.pipe writable f.valid;
  in_order = rw (pipeclose-queue s.pipe writable) f.in_order;
}

abbrev pub new_run : (ℕ → ℕ) → Run
new_run page = record { pipe = fresh page; sent = []; received = [] }

fresh-IsFifo : (page : ℕ → ℕ) → IsFifo (new_run page)
unfolding fresh queue bytes_from
fresh-IsFifo page = record { valid = omega arith; in_order = refl }

Reach-IsFifo : {s t : Run} → IsFifo s → Reach s t → IsFifo t
Reach-IsFifo f here = f
Reach-IsFifo f (next r st) = Step-IsFifo st (Reach-IsFifo f r)

-- In any order of calls of readers, writers and closers of a fresh pipe, however they sleep and resume,
-- the bytes that went in are the bytes that came out followed by those in the buffer, of which there
-- are PIPESIZE at most.
pub Reach-in_order :
    (page : ℕ → ℕ) (t : Run)
    → Reach (new_run page) t
    → (t.sent ≡ t.received ++ queue t.pipe) × (length (queue t.pipe) ≤ pipe_size)
Reach-in_order page t r =
    let f = Reach-IsFifo (fresh-IsFifo page) r in
    (f.in_order, rw (length-queue t.pipe) f.valid.fits)
