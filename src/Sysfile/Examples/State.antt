-- ===== src/Sysfile/Examples/State.antt =====
-- A kernel with two files, of which one is open, and a root directory in the inode cache.
use zv.Prelude.{
  ℕ, zero, suc, ◌+◌, ◌≡◌, refl, arith, true, false, ◌==◌, if◌then◌else◌, [], ◌∷◌, none, some,
  Result, ok, panic, waits,
}
use zv.Block.{Block}
use zv.Pipe.{Pipe}
use zv.Syscall.{User}
use zv.Fs.{Fs, Inode}
use zv.Fs.Namex.{Env}
use zv.Files.{fd_none, fd_inode, File, Kernel}
use zv.Files.Refs.{ref_of, count_of, Counted}

abbrev pub env : Env
env = record {
  depth = 1;
  length = 20;
  dev = record { reads = λ _. none; writes = λ _. none };
  kernel_end = 0;
}

-- The root directory, and one with a ditto inode.
abbrev pub root : ℕ → Inode
root child = record {
  inum = 1;
  ref = 1;
  busy = false;
  valid = true;
  copy = record {
    type = 1;
    major = 0;
    minor = 0;
    nlink = 1;
    size = 0;
    addrs = λ _. 0;
    child1 = child;
    child2 = 0;
    checksum = 0;
  };
}

abbrev pub zeros : ℕ → Block
zeros x i = 0

abbrev pub fs : ℕ → Fs
fs child = record {
  log = record { start = 100; size = 20; busy = false; n = 0; sector = λ _. 0 };
  store = record { view = zeros; disk = zeros; power = 50 };
  icache = root child ∷ [];
}

abbrev pub open_file : File
open_file = record {
  type = fd_inode;
  ref = 2;
  readable = true;
  writable = false;
  pipe = 0;
  ip = 0;
  off = 0;
}

abbrev pub unused_file : File
unused_file = record open_file { type = fd_none; ref = 0 }

abbrev pub no_pipe : Pipe
no_pipe = record { contents = λ _. 0; nread = 0; nwrite = 0; readopen = false; writeopen = false }

-- The arguments are words of the stack; the path "/" lies at 100, and the empty path at 50.
abbrev pub user : ℕ → User
user first = record {
  sz = 4096;
  memory = λ a. if a == 4004 then first else if a == 100 then 47 else 0;
  esp = 4000;
}

abbrev pub kernel : ℕ → ℕ → Kernel
kernel child first = record {
  fs = fs child;
  files = open_file ∷ unused_file ∷ [];
  pipes = λ _. no_pipe;
  kmem = record { freelist = 0; mem = λ _. 0 };
  ofile = some 0 ∷ none ∷ [];
  cwd = 0;
  user = user first;
  killed = false;
}

-- Another process has the file open too.
abbrev pub others : ℕ → ℕ
others f = if f == 0 then 1 else 0

pub kernel-Counted : (child first : ℕ) → Counted others (kernel child first)
kernel-Counted child first = record { counted = count }
  where
    count :
        (f : ℕ)
        → ref_of (open_file ∷ unused_file ∷ []) f ≡ others f + count_of f (some 0 ∷ none ∷ [])
    count zero = refl
    count (suc zero) = refl
    count (suc (suc f)) = ground arith

-- The state that a call leaves.
abbrev pub state_of {ℓ} : {A : Type ℓ} → Kernel → Result (A × Kernel) → Kernel
state_of k (ok (a, s)) = s
state_of k (panic e) = k
state_of k waits = k
