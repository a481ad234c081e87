-- ===== src/Pipe.antt =====
-- pipe.c: the ring buffer of a pipe.  `nread` and `nwrite` are unsigned 32-bit counters that wrap around.
-- The pipe's lock is held from the call to its end, or until the caller sleeps, so that each function
-- here is what happens between; a caller that slept goes on with what it had left.
pub mod Queue
pub mod Calls
pub mod History
mod Examples
use zv.Prelude.{
  ℕ, zero, suc, ◌+◌, ◌%◌, Bool, true, false, ◌&&◌, ◌||◌, not, ◌==◌, if◌then◌else◌, update, List, [],
  ◌∷◌,
}

abbrev pub pipe_size : ℕ
pipe_size = 512

-- 2 ^ 32.
abbrev pub uint_mod : ℕ
uint_mod = 4294967296

pub record Pipe : Type 0 where
  pub contents : ℕ → ℕ
  pub nread : ℕ
  pub nwrite : ℕ
  pub readopen : Bool
  pub writeopen : Bool

-- What `pipealloc` makes of a fresh page.
unfoldable pub fresh : (ℕ → ℕ) → Pipe
fresh page = record { contents = page; nread = 0; nwrite = 0; readopen = true; writeopen = true }

-- `pipeclose`; the flag tells whether the page is freed.
unfoldable pub pipeclose : Pipe → Bool → Pipe × Bool
pipeclose p writable =
    let p' : Pipe =
      if writable then record p { writeopen = false } else record p { readopen = false } in
    (p', not p'.readopen && not p'.writeopen)

unfoldable pub is_full : Pipe → Bool
is_full p = p.nwrite == (p.nread + pipe_size) % uint_mod

unfoldable pub is_empty : Pipe → Bool
is_empty p = p.nread == p.nwrite

-- `p->data[p->nwrite++ % PIPESIZE] = b`.
unfoldable pub push : Pipe → ℕ → Pipe
push p b = record p {
  contents = update p.contents (p.nwrite % pipe_size) b;
  nwrite = (p.nwrite + 1) % uint_mod;
}

-- `p->data[p->nread++ % PIPESIZE]`.
unfoldable pub next_byte : Pipe → ℕ
next_byte p = p.contents (p.nread % pipe_size)

unfoldable pub pull : Pipe → Pipe
pull p = record p { nread = (p.nread + 1) % uint_mod }

-- How a call ends: with a result, with -1, or asleep with the given bytes left to write.
pub data Written : Type 0 where
  done : Written
  failed : List ℕ → Written
  asleep : List ℕ → Written

-- The loop of `pipewrite` over the bytes that are left.
unfoldable pub pipewrite : Pipe → Bool → List ℕ → Pipe × Written
pipewrite p killed [] = (p, done)
pipewrite p killed (b ∷ bs) =
    let more = pipewrite (push p b) killed bs in
    if is_full p
    then (if not p.readopen || killed then (p, failed (b ∷ bs)) else (p, asleep (b ∷ bs)))
    else more

pub data Read : Type 0 where
  bytes : List ℕ → Read
  refused : Read
  waiting : Read

-- The copying loop of `piperead`.
unfoldable pub read_loop : ℕ → Pipe → Pipe × List ℕ
read_loop zero p = (p, [])
read_loop (suc n) p =
    let more = read_loop n (pull p) in
    if is_empty p then (p, []) else (more.0, next_byte p ∷ more.1)

unfoldable pub piperead : Pipe → Bool → ℕ → Pipe × Read
unfolding read_loop
piperead p killed n =
    if is_empty p && p.writeopen
    then (if killed then (p, refused) else (p, waiting))
    else (let r = read_loop n p in (r.0, bytes r.1))
