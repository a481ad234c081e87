-- ===== src/Strings/Names.antt =====
-- C strings (string.c): what `strncmp`, `strncpy`, `safestrcpy` and `strlen` do, against the text that
-- a memory holds at an address.
use zv.Prelude.{
  ℕ, zero, suc, ◌+◌, ◌-◌, ◌≤◌, ◌<◌, ◌≡◌, ◌≢◌, ◌↔◌, refl, ◌∙◌, ap, inl, inr, ◌&&◌, arith, ◌==◌, ltb,
  leb, if◌then◌else◌, Bool-cases, update, ℕ_discrete, ◌⊎◌, pos, sub_ℕ-zero, List, [], ◌∷◌, some,
  length,
}
use native.Mathlib.Nat.{add-zero}
use zv.Strings.{Memory, memcmp, strncmp, strncpy, pad, safestrcpy, safe_loop, strlen}

-- The bytes from `p` up to the first NUL, at most `n` of them.
unfoldable pub text : ℕ → ℕ → Memory → List ℕ
text zero p m = []
text (suc n) p m = if m p == 0 then [] else m p ∷ text n (p + 1) m

-- `strncmp` returns 0 exactly when the two texts are equal in their first `n` bytes.
pub strncmp-zero : (p q n : ℕ) (m : Memory) → strncmp p q n m ≡ pos 0 ↔ text n p m ≡ text n q m
unfolding strncmp text
strncmp-zero p q zero m = ((λ _. refl), λ _. refl)
strncmp-zero p q (suc n) m =
    let rest = strncmp-zero (p + 1) (q + 1) n m in
    let ends = sub_ℕ-zero (m p) (m q) in
    ((λ e. ground (arith, rest.0, ends.0)), λ e. ground (arith, rest.1, ends.1))

-- `memcmp` returns 0 exactly when the `n` bytes agree.
pub memcmp-zero :
    (p q n : ℕ) (m : Memory) → memcmp p q n m ≡ pos 0 ↔ ((i : ℕ) → i < n → m (p + i) ≡ m (q + i))
unfolding memcmp
memcmp-zero p q zero m = ((λ _ i h. absurd (omega arith)), λ _. refl)
memcmp-zero p q (suc n) m =
    let rest = memcmp-zero (p + 1) (q + 1) n m in
    let ends = sub_ℕ-zero (m p) (m q) in
    (
      (λ e i h.
          let first : m p ≡ m q = ground (arith, ends.0) in
          let e' : memcmp (p + 1) (q + 1) n m ≡ pos 0 = ground (arith, first) in
          elim (ℕ_discrete i 0) [
            | yes z ↦ ground (arith, z, first, add-zero p, add-zero q)
            | no nz ↦ ground (arith, nz, rest.0 e' (i - 1))
          ]),
      λ all.
          let first : m p ≡ m q = ground (arith, all 0, add-zero p, add-zero q) in
          let e' : memcmp (p + 1) (q + 1) n m ≡ pos 0 =
            rest.1 (λ i h. ground (arith, all (suc i))) in
          ground (arith, first),
    )

pad_lem :
    (s n : ℕ) (m : Memory) (x : ℕ) → pad s n m x ≡ (if leb s x && ltb x (s + n) then 0 else m x)
unfolding pad
pad_lem s zero m x = ground arith
pad_lem s (suc n) m x = pad_lem (s + 1) n (update m s 0) x ∙ ground arith

text_cong :
    (n p q : ℕ) (m m' : Memory)
    → ((i : ℕ) → i < n → m (p + i) ≡ m' (q + i))
    → text n p m ≡ text n q m'
unfolding text
text_cong zero p q m m' h = refl
text_cong (suc n) p q m m' h =
    let first : m p ≡ m' q = ground (arith, h 0, add-zero p, add-zero q) in
    let rest : text n (p + 1) m ≡ text n (q + 1) m' =
      text_cong n (p + 1) (q + 1) m m' (λ i lt. ground (arith, h (suc i))) in
    ground (arith, first, rest)

-- Two regions of `n` bytes that do not overlap.
abbrev pub Apart : ℕ → ℕ → ℕ → Type 0
Apart s t n = (s + n ≤ t) ⊎ (t + n ≤ s)

text-update :
    (s t n v : ℕ) (m : Memory) → (s < t) ⊎ (t + n ≤ s) → text n t (update m s v) ≡ text n t m
text-update s t n v m h = text_cong n t t _ m (λ i lt. ground arith)

strncpy_frame : (s t n : ℕ) (m : Memory) (x : ℕ) → (x < s) ⊎ (s + n ≤ x) → strncpy s t n m x ≡ m x
unfolding strncpy
strncpy_frame s t zero m x h = refl
strncpy_frame s t (suc n) m x h = ground (
  arith,
  pad_lem (s + 1) n (update m s (m t)) x,
  strncpy_frame (s + 1) (t + 1) n (update m s (m t)) x,
)

-- What `strncpy` puts at `s` is the text at `t`, cut off after `n` bytes.
strncpy-text : (s t n : ℕ) (m : Memory) → Apart s t n → text n s (strncpy s t n m) ≡ text n t m
unfolding strncpy text
strncpy-text s t zero m h = refl
strncpy-text s t (suc n) m h =
    let m' : Memory = update m s (m t) in
    elim (Bool-cases (m t == 0)) [
      | inl ends ↦
          let at : pad (s + 1) n m' s ≡ 0 = pad_lem (s + 1) n m' s ∙ ground (arith, ends) in
          rw (ends, at)
      | inr goes ↦
          let at : strncpy (s + 1) (t + 1) n m' s ≡ m t =
            strncpy_frame (s + 1) (t + 1) n m' s (omega arith) ∙ ground arith in
          let rest : text n (s + 1) (strncpy (s + 1) (t + 1) n m') ≡ text n (t + 1) m =
            strncpy-text (s + 1) (t + 1) n m' (omega arith)
            ∙ text-update s (t + 1) n (m t) m (omega arith) in
          rw (goes, at, goes, rest)
    ]

strncpy_pad :
    (s t n : ℕ) (m : Memory) (i : ℕ)
    → Apart s t n
    → length (text n t m) ≤ i
    → i < n
    → strncpy s t n m (s + i) ≡ 0
unfolding strncpy text
strncpy_pad s t zero m i h le lt = absurd (omega arith)
strncpy_pad s t (suc n) m i h le lt =
    let m' : Memory = update m s (m t) in
    elim (Bool-cases (m t == 0)) [
      | inl ends ↦ rw ends (pad_lem (s + 1) n m' (s + i) ∙ ground (arith, ends))
      | inr goes ↦
          let le' : suc (length (text n (t + 1) m)) ≤ i = rw goes at le in
          let same : text n (t + 1) m' ≡ text n (t + 1) m =
            text-update s (t + 1) n (m t) m (omega arith) in
          let shift : s + 1 + (i - 1) ≡ s + i = omega arith in
          rw goes (
            rw shift at (
              strncpy_pad (s + 1) (t + 1) n m' (i - 1) (omega arith) (rw same (omega arith))
                (omega arith)))
    ]

-- `strncpy` leaves at `s` the text of `t` cut off after `n` bytes, filled up with NULs to `n` bytes,
-- and changes no other byte, provided that the two regions do not overlap.
pub strncpy_lem :
    (s t n : ℕ) (m : Memory)
    → Apart s t n
    → (text n s (strncpy s t n m) ≡ text n t m)
      × ((i : ℕ) → length (text n t m) ≤ i → i < n → strncpy s t n m (s + i) ≡ 0)
      × ((x : ℕ) → (x < s) ⊎ (s + n ≤ x) → strncpy s t n m x ≡ m x)
strncpy_lem s t n m h =
    (strncpy-text s t n m h, (λ i. strncpy_pad s t n m i h), strncpy_frame s t n m)

safe_loop_frame :
    (s t n : ℕ) (m : Memory) (x : ℕ) → (x < s) ⊎ (s + n < x) → safe_loop s t n m x ≡ m x
unfolding safe_loop
safe_loop_frame s t zero m x h = ground arith
safe_loop_frame s t (suc n) m x h =
    ground (arith, safe_loop_frame (s + 1) (t + 1) n (update m s (m t)) x)

safe_loop-text :
    (s t n : ℕ) (m : Memory)
    → (s + n < t) ⊎ (t + n ≤ s)
    → text (suc n) s (safe_loop s t n m) ≡ text n t m
unfolding safe_loop text
safe_loop-text s t zero m h = ground arith
safe_loop-text s t (suc n) m h =
    let m' : Memory = update m s (m t) in
    elim (Bool-cases (m t == 0)) [
      | inl ends ↦ ground (arith, ends)
      | inr goes ↦
          let at : safe_loop (s + 1) (t + 1) n m' s ≡ m t =
            safe_loop_frame (s + 1) (t + 1) n m' s (omega arith) ∙ ground arith in
          let rest : text (suc n) (s + 1) (safe_loop (s + 1) (t + 1) n m') ≡ text n (t + 1) m =
            safe_loop-text (s + 1) (t + 1) n m' (omega arith)
            ∙ text-update s (t + 1) n (m t) m (omega arith) in
          rw (goes, at, goes) (ap (◌∷◌ (m t)) rest)
    ]

-- `safestrcpy` with room for `n + 1` bytes leaves at `s` the text of `t` cut off after `n` bytes and
-- ended by a NUL within the room, and changes no byte outside it.
pub safestrcpy_lem :
    (s t n : ℕ) (m : Memory)
    → (s + n < t) ⊎ (t + n ≤ s)
    → (text (suc n) s (safestrcpy s t (suc n) m) ≡ text n t m)
      × ((x : ℕ) → (x < s) ⊎ (s + n < x) → safestrcpy s t (suc n) m x ≡ m x)
unfolding safestrcpy
safestrcpy_lem s t n m h = (safe_loop-text s t n m h, safe_loop_frame s t n m)

strlen-text :
    (fuel s n k : ℕ) (m : Memory)
    → m (s + n + k) ≡ 0
    → k < fuel
    → strlen fuel s n m ≡ some (n + length (text fuel (s + n) m))
unfolding strlen text
strlen-text zero s n k m z lt = absurd (omega arith)
strlen-text (suc fuel) s n k m z lt = elim (Bool-cases (m (s + n) == 0)) [
  | inl ends ↦ rw ends (ground arith)
  | inr goes ↦
      let later : k ≢ 0 = λ e. ground (arith, ap (λ a. m (s + n + a)) e, add-zero (s + n)) in
      let shift : s + suc n + (k - 1) ≡ s + n + k = omega arith in
      let next : s + suc n ≡ s + n + 1 = omega arith in
      rw goes (
        strlen-text fuel s (suc n) (k - 1) m (ap m shift ∙ z) (omega arith)
        ∙ ground (arith, ap (λ a. length (text fuel a m)) next))
]

-- `strlen` returns the length of the text at `s`, if a NUL stands within its fuel.
pub strlen_lem :
    (fuel s k : ℕ) (m : Memory)
    → m (s + k) ≡ 0
    → k < fuel
    → strlen fuel s 0 m ≡ some (length (text fuel s m))
strlen_lem fuel s k m z lt =
    strlen-text fuel s 0 k m (ap (λ a. m (a + k)) (add-zero s) ∙ z) lt
    ∙ ground (arith, ap (λ a. length (text fuel a m)) (add-zero s))
