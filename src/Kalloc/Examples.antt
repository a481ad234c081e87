-- ===== src/Kalloc/Examples.antt =====
-- Runs of kalloc.c with two pages, and a kernel that ends at its 16th page.
use zv.Prelude.{ℕ, ◌-◌, ◌/◌, ◌≡◌, refl, arith, [], ok}
use zv.Kalloc.{Kmem, page_size, round_up, freerange}
use zv.Kalloc.Stack.{Free}
use zv.Kalloc.Range.{pages, freerange-Free}

abbrev kernel_end : ℕ
kernel_end = 2147549184

abbrev empty : Kmem
empty = record { freelist = 0; mem = λ _. 0 }

freerange_example :
    (t : Kmem) × (freerange kernel_end 2147549185 2147561472 empty ≡ ok t)
    × Free t (pages (round_up 2147549185) ((2147561472 - round_up 2147549185) / page_size) [])
freerange_example =
    freerange-Free kernel_end 2147549185 2147561472 empty [] (omega arith) (omega arith)
      (omega arith) (omega arith) tt refl
