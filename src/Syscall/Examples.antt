-- ===== src/Syscall/Examples.antt =====
-- Arguments (syscall.c) on a small stack.
use zv.Prelude.{◌+◌, ◌-◌, ◌≤◌, ◌<◌, ◌≡◌, ◌↔◌, refl, arith, ◌==◌, if◌then◌else◌, some}
use zv.Syscall.{User, uint_mod, fetchint, argint, argptr, argstr}
use zv.Syscall.Bounds.{IsString, argptr-some, argptr-negative, argstr-some}

-- The first argument is 100, where a string of one byte lies.
abbrev user : User
user = record {
  sz = 4096;
  memory = λ a. if a == 4004 then 100 else if a == 100 then 47 else 0;
  esp = 4000;
}

argptr_example :
    argptr user 0 8 ≡ some 100 ↔ (argint user 0 ≡ some 100) × (100 < user.sz) × (100 + 8 ≤ user.sz)
argptr_example = argptr-some user 0 8 100 (omega arith) (omega arith)

first_argument : argint user 0 ≡ some 100
unfolding argint fetchint
first_argument = refl

argptr-negative_example : argptr user 0 (uint_mod - 1) ≡ some 100
argptr-negative_example =
    argptr-negative user 0 1 100 (omega arith) (omega arith) (omega arith) (omega arith)
      first_argument

argstr_example :
    argstr user 0 ≡ some (100, 1)
    ↔ (argint user 0 ≡ some 100) × IsString user.memory 100 1 × (100 + 1 < user.sz)
argstr_example = argstr-some user 0 100 1
