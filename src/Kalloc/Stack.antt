-- ===== src/Kalloc/Stack.antt =====
-- kalloc.c keeps a stack of free pages: its calls are push and pop.
use zv.Prelude.{
  ℕ, ◌+◌, ◌/◌, ◌%◌, ◌<◌, ◌≤◌, ◌≡◌, ◌≢◌, refl, arith, true, false, ◌==◌, ==_iff, List, [], ◌∷◌, ok,
  panic, update,
}
use zv.Kalloc.{Kmem, page_size, kernbase, phystop, fill, is_bad, kfree, kalloc}

-- The pages that the list from `head` on visits, in order.
abbrev pub Chain : (ℕ → ℕ) → ℕ → List ℕ → Type 0
Chain mem head [] = head ≡ 0
Chain mem head (v ∷ vs) = (head ≡ v) × (v ≢ 0) × (v % page_size ≡ 0) × Chain mem (mem v) vs

abbrev pub Free : Kmem → List ℕ → Type 0
Free s vs = Chain s.mem s.freelist vs

-- A page is not among others.
abbrev pub Fresh : ℕ → List ℕ → Type 0
Fresh v [] = Unit {0}
Fresh v (x ∷ vs) = (v ≢ x) × Fresh v vs

-- A page of the kernel that `kfree` takes: below PHYSTOP and not before `end`.
pub record IsPage (end v : ℕ) : Type 0 where
  pub aligned : v % page_size ≡ 0
  pub after : end ≤ v
  pub mapped : kernbase ≤ v
  pub below : v < kernbase + phystop

-- The list does not go through the page that is written.
Chain-fill :
    (mem : ℕ → ℕ) (v w head : ℕ) (vs : List ℕ)
    → v % page_size ≡ 0
    → Fresh v vs
    → Chain mem head vs
    → Chain (update (fill v mem) v w) head vs
Chain-fill mem v w head [] a f c = c
Chain-fill mem v w head (x ∷ vs) a f (e, nz, b, c) =
    let apart : (x / page_size ≡ v / page_size) → x ≡ v = λ q. omega arith in
    let kept : update (fill v mem) v w x ≡ mem x = ground arith in
    (e, nz, b, rw kept (Chain-fill mem v w (mem x) vs a f.1 c))

page_passes : (end v : ℕ) → IsPage end v → is_bad end v ≡ false
page_passes end v p = ground (arith, p.aligned, p.after, p.mapped, p.below)

-- `kfree` of a page that is not free pushes it, fills the rest of it with ones, and does not panic.
pub kfree-Free :
    (end v : ℕ) (s : Kmem) (vs : List ℕ)
    → IsPage end v
    → Fresh v vs
    → Free s vs
    → (t : Kmem) × (kfree end v s ≡ ok t) × Free t (v ∷ vs)
unfolding kfree
kfree-Free end v s vs p f c =
    let good : is_bad end v ≡ false = page_passes end v p in
    (
      record s { freelist = v; mem = update (fill v s.mem) v s.freelist },
      rw good refl,
      (
        refl,
        omega (arith, p.mapped),
        p.aligned,
        rw ((==_iff v v).1 refl) (Chain-fill s.mem v s.freelist s.freelist vs p.aligned f c),
      ),
    )

-- A page that is not aligned, before `end` or beyond PHYSTOP is refused.
pub kfree_refuses : (end v : ℕ) (s : Kmem) → is_bad end v ≡ true → kfree end v s ≡ panic "kfree"
unfolding kfree
kfree_refuses end v s e = ground (arith, e)

-- The stack's own operations: its top, 0 where there is none, and what is below.
abbrev pub top : List ℕ → ℕ
top [] = 0
top (v ∷ vs) = v

abbrev pub below : List ℕ → List ℕ
below [] = []
below (v ∷ vs) = vs

-- `kalloc` answers the top of the stack of free pages, 0 when it is empty, and takes it off.
pub kalloc-Free :
    (s : Kmem) (vs : List ℕ) → Free s vs → ((kalloc s).0 ≡ top vs) × Free (kalloc s).1 (below vs)
unfolding kalloc
kalloc-Free s [] c = let e : (s.freelist == 0) ≡ true = (==_iff s.freelist 0).1 c in rw e (refl, c)
kalloc-Free s (v ∷ vs) (e, nz, b, c) =
    let ne : (s.freelist == 0) ≡ false = ground (arith, e, nz) in rw ne (e, rw e c)
