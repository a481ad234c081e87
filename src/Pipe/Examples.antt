-- ===== src/Pipe/Examples.antt =====
-- Runs of pipe.c on a fresh pipe.
use zv.Prelude.{ℕ, ◌≤◌, ◌≡◌, refl, false, List, [], ◌∷◌, ◌++◌, length}
use zv.Pipe.{
  Pipe, pipe_size, fresh, is_full, is_empty, push, pull, next_byte, pipewrite, piperead, read_loop,
}
use zv.Pipe.Queue.{queue}
use zv.Pipe.Calls.{left}
use zv.Pipe.History.{Run, Reach, Step, here, next, read, write, new_run, Reach-in_order}

abbrev page : ℕ → ℕ
page i = 5

abbrev new_pipe : Pipe
unfolding fresh
new_pipe = fresh page

abbrev two : List ℕ
two = 1 ∷ 2 ∷ []

abbrev full_pipe : Pipe
full_pipe = (pipewrite new_pipe false two).0

two_went : two ≡ two ++ left (pipewrite new_pipe false two).1
unfolding pipewrite fresh is_full push
two_went = refl

abbrev after_write : Run
after_write = record (new_run page) { pipe = full_pipe; sent = [] ++ two }

abbrev after_read : Run
after_read = record after_write {
  pipe = (piperead full_pipe false 1).0;
  received = [] ++ zv.Pipe.History.bytes_of (piperead full_pipe false 1).1;
}

reached : Reach (new_run page) after_read
unfolding fresh
reached = next (next here (write (new_run page) false two two two_went)) (read after_write false 1)

Reach-in_order_example :
    (after_read.sent ≡ after_read.received ++ queue after_read.pipe)
    × (length (queue after_read.pipe) ≤ pipe_size)
Reach-in_order_example = Reach-in_order page after_read reached
