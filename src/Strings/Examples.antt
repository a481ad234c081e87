-- ===== src/Strings/Examples.antt =====
-- Runs of string.c on the text "ab" at address 100.
use zv.Prelude.{◌+◌, ◌-◌, ◌≡◌, ◌==◌, if◌then◌else◌}
use zv.Strings.{Memory, memmove}
use zv.Strings.Moves.{within, memmove_lem}

abbrev mem : Memory
mem x = if x == 100 then 97 else if x == 101 then 98 else 0

memmove_example :
    memmove 101 100 2 mem 102 ≡ (if within 101 2 102 then mem (100 + (102 - 101)) else mem 102)
memmove_example = memmove_lem 101 100 2 mem 102
