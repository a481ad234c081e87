-- ===== src/Kalloc/Range.antt =====
-- kalloc.c: `freerange` puts every whole page of a range on the free list.
use zv.Prelude.{
  ℕ, zero, suc, ◌+◌, ◌-◌, ◌/◌, ◌%◌, ◌<◌, ◌≤◌, ◌≡◌, refl, ◌∙◌, arith, true, false, leb, List, [],
  ◌∷◌, subst, ok,
}
use zv.Kalloc.{Kmem, page_size, kernbase, phystop, round_up, kfree, freerange_loop, freerange}
use zv.Kalloc.Stack.{Free, Fresh, IsPage, kfree-Free}

-- `n` pages from `p` on, pushed one after the other.
abbrev pub pages : ℕ → ℕ → List ℕ → List ℕ
pages p zero vs = vs
pages p (suc n) vs = pages (p + page_size) n (p ∷ vs)

abbrev pub Below : ℕ → List ℕ → Type 0
Below p [] = Unit {0}
Below p (v ∷ vs) = (v < p) × Below p vs

Below-Fresh : (p : ℕ) (vs : List ℕ) → Below p vs → Fresh p vs
Below-Fresh p [] b = tt
Below-Fresh p (v ∷ vs) b = (omega (arith, b.0), Below-Fresh p vs b.1)

Below-page : (p q : ℕ) (vs : List ℕ) → p ≤ q → Below p vs → Below q vs
Below-page p q [] h b = tt
Below-page p q (v ∷ vs) h b = (omega (arith, b.0), Below-page p q vs h b.1)

loop_step :
    (end k p vend : ℕ) (s u : Kmem)
    → leb ((p + page_size) % 4294967296) vend ≡ true
    → kfree end p s ≡ ok u
    → freerange_loop end (suc k) p vend s
      ≡ freerange_loop end k ((p + page_size) % 4294967296) vend u
unfolding freerange_loop
loop_step end k p vend s u on freed = rw (on, freed) refl

loop_pages :
    (end vend n k p : ℕ) (s : Kmem) (vs : List ℕ)
    → n < k
    → p % page_size ≡ 0
    → end ≤ p
    → kernbase ≤ p
    → vend ≤ kernbase + phystop
    → (vend - p) / page_size ≡ n
    → p ≤ kernbase + phystop
    → Below p vs
    → Free s vs
    → (t : Kmem) × (freerange_loop end k p vend s ≡ ok t) × Free t (pages p n vs)
unfolding freerange_loop
loop_pages end vend n zero p s vs lt a e m top q le b c = elim lt [ ]
loop_pages end vend zero (suc k) p s vs lt a e m top q le b c =
    let stop : leb ((p + page_size) % 4294967296) vend ≡ false = ground arith in
    (s, rw stop refl, c)
loop_pages end vend (suc n) (suc k) p s vs lt a e m top q le b c =
    let on : leb ((p + page_size) % 4294967296) vend ≡ true = ground arith in
    let next : (p + page_size) % 4294967296 ≡ p + page_size = omega arith in
    let is_page : IsPage end p = record {
      aligned = a;
      after = e;
      mapped = m;
      below = omega arith;
    } in
    let (u, freed, d) = kfree-Free end p s vs is_page (Below-Fresh p vs b) c in
    let (t, done, f) =
      loop_pages end vend n k ((p + page_size) % 4294967296) u (p ∷ vs) (omega arith) (omega arith)
        (omega arith) (omega arith) top (omega arith) (omega arith)
        (omega arith, Below-page p _ vs (omega arith) b) d in
    (t, loop_step end k p vend s u on freed ∙ done, subst (λ q. Free t (pages q n (p ∷ vs))) next f)

-- `freerange` of a range of the kernel's memory that lies above the pages that are free already: the loop ends, no call of `kfree` panics, and exactly the whole pages between the rounded start and the end are pushed, in order.
pub freerange-Free :
    (end vstart vend : ℕ) (s : Kmem) (vs : List ℕ)
    → end ≤ round_up vstart
    → kernbase ≤ round_up vstart
    → round_up vstart ≤ kernbase + phystop
    → vend ≤ kernbase + phystop
    → Below (round_up vstart) vs
    → Free s vs
    → (t : Kmem) × (freerange end vstart vend s ≡ ok t)
      × Free t (pages (round_up vstart) ((vend - round_up vstart) / page_size) vs)
unfolding freerange
freerange-Free end vstart vend s vs e m le top b c =
    loop_pages end vend ((vend - round_up vstart) / page_size) (suc (vend / page_size))
      (round_up vstart) s vs (omega arith) (omega arith) e m top refl le b c
