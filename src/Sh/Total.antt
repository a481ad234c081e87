-- ===== src/Sh/Total.antt =====
-- The parser of sh.c on any line: the bounds of what its functions leave, and of the commands they make.
use zv.Prelude.{
  ℕ, zero, suc, ◌+◌, ◌≤◌, ◌<◌, ◌≡◌, refl, inl, inr, arith, Bool, true, false, not, ◌==◌, leb,
  if◌then◌else◌, Bool-cases, List, [], ◌∷◌, ◌++◌, length, Result, ok, panic, waits, ◌>>=◌,
}
use zv.Sh.{
  max_args, Cmd, exec, redir, pipe, sequence, back, skip_spaces, gettoken, first_in, peek,
  redirected, Wrap, Parsed, parseredirs, parseargs, parseblock, parseexec, parsepipe, parsebacks,
  parseline, parsecmd,
}
use zv.Sh.Lengths.{length-gettoken, length-skip_spaces, gettoken_shorter, peek_shorter}

-- The call returns, with a value of the property, or it panics.
abbrev pub Done {ℓ} : {A : Type ℓ} → (A → Type 0) → Result A → Type 0
Done P (ok a) = P a
Done P (panic m) = Unit {0}
Done P waits = ⊥

bind-Done {ℓ κ} :
    {A : Type ℓ} {B : Type κ} (P : A → Type 0) (Q : B → Type 0) (r : Result A) (k : A → Result B)
    → Done P r
    → ((a : A) → P a → Done Q (k a))
    → Done Q (r >>= k)
bind-Done P Q (ok a) k p f = f a p
bind-Done P Q (panic m) k p f = tt
bind-Done P Q waits k p f = p

if-Done {ℓ} :
    {A : Type ℓ} (P : A → Type 0) (b : Bool) (x y : Result A)
    → (b ≡ true → Done P x)
    → (b ≡ false → Done P y)
    → Done P (if b then x else y)
if-Done P true x y then_done else_done = then_done refl
if-Done P false x y then_done else_done = else_done refl

-- The arguments of each command leave room for the null pointer at their end.
unfoldable pub Fits : Cmd → Type 0
Fits (exec argv) = length argv < max_args
Fits (redir c file mode fd) = Fits c
Fits (pipe a b) = Fits a × Fits b
Fits (sequence a b) = Fits a × Fits b
Fits (back c) = Fits c

abbrev Good : ℕ → Cmd × List ℕ → Type 0
Good n r = (length r.1 ≤ n) × Fits r.0

abbrev KeepsFits : Wrap → Type 0
KeepsFits wrap = (c : Cmd) → Fits c → Fits (wrap c)

abbrev GoodWrap : ℕ → Wrap × List ℕ → Type 0
GoodWrap n r = (length r.1 ≤ n) × KeepsFits r.0

redirected-Fits : (tok : ℕ) (c : Cmd) (file : List ℕ) → Fits c → Fits (redirected tok c file)
unfolding Fits
redirected-Fits tok c file fits = elim (Bool-cases (tok == b'<')) [
  | inl e ↦ rw e fits
  | inr e ↦ rw e fits
]

Done-imp {ℓ} :
    {A : Type ℓ} (P Q : A → Type 0) (r : Result A) → ((a : A) → P a → Q a) → Done P r → Done Q r
Done-imp P Q (ok a) f h = f a h
Done-imp P Q (panic m) f h = h
Done-imp P Q waits f h = h

-- What is bound over a longer text.
weaken_wrap :
    {m n : ℕ} (r : Result (Wrap × List ℕ)) → m ≤ n → Done (GoodWrap m) r → Done (GoodWrap n) r
weaken_wrap {m} {n} r le =
    Done-imp (GoodWrap m) (GoodWrap n) r (λ a h. (omega (arith, h.0, le), h.1))

weaken : {m n : ℕ} (r : Parsed) → m ≤ n → Done (Good m) r → Done (Good n) r
weaken {m} {n} r le = Done-imp (Good m) (Good n) r (λ a h. (omega (arith, h.0, le), h.1))

parseredirs-Done :
    (fuel : ℕ) (wrap : Wrap) (s : List ℕ)
    → length s < fuel
    → KeepsFits wrap
    → Done (GoodWrap (length s)) (parseredirs fuel wrap s)
unfolding parseredirs peek
parseredirs-Done zero wrap s enough keeps = ground arith
parseredirs-Done (suc fuel) wrap s enough keeps =
    let tok = gettoken (skip_spaces s) in
    let file = gettoken tok.rest in
    let more = parseredirs fuel (λ c. redirected tok.ret (wrap c) file.text) file.rest in
    if-Done (GoodWrap (length s)) (first_in (b'<' ∷ b'>' ∷ []) (skip_spaces s)) _ _
      (λ redirection.
        let shorter = peek_shorter (b'<' ∷ b'>' ∷ []) s redirection in
        let file_shorter = length-gettoken tok.rest in
        if-Done (GoodWrap (length s)) (file.ret == b'a') more _
          (λ named. weaken_wrap more (omega arith) (
            parseredirs-Done fuel (λ c. redirected tok.ret (wrap c) file.text) file.rest
              (omega arith) (λ c fits. redirected-Fits tok.ret (wrap c) file.text (keeps c fits))))
          (λ missing. tt))
      (λ end. (length-skip_spaces s, keeps))

parseargs-Done :
    (fuel : ℕ) (argv : List (List ℕ)) (wrap : Wrap) (s : List ℕ)
    → length s < fuel
    → KeepsFits wrap
    → length argv < max_args
    → Done (Good (length s)) (parseargs fuel argv wrap s)
unfolding parseargs peek Fits
parseargs-Done zero argv wrap s enough keeps fits = ground arith
parseargs-Done (suc fuel) argv wrap s enough keeps fits =
    let tok = gettoken (skip_spaces s) in
    let argv' = argv ++ (tok.text ∷ []) in
    let P = Good (length s) in
    let shorter = length-skip_spaces s in
    if-Done P (first_in (b'|' ∷ b')' ∷ b'&' ∷ b';' ∷ []) (skip_spaces s)) _ _
      (λ stop. (shorter, keeps (exec argv) fits))
      (λ go_on.
        if-Done P (tok.ret == 0) _ _
          (λ end. (omega (arith, shorter, length-gettoken (skip_spaces s)), keeps (exec argv) fits))
          (λ more.
            if-Done P (not (tok.ret == b'a')) _ _ (λ symbol. tt)
              (λ argument.
                if-Done P (leb max_args (length argv')) _ _ (λ full. tt)
                  (λ room.
                    let read = gettoken_shorter s more in
                    bind-Done (GoodWrap (length tok.rest)) P (parseredirs fuel wrap tok.rest) _
                      (parseredirs-Done fuel wrap tok.rest (omega arith) keeps)
                      (λ r h. weaken (parseargs fuel argv' r.0 r.1) (omega (arith, h.0)) (
                        parseargs-Done fuel argv' r.0 r.1 (omega (arith, h.0)) h.1
                          (ground (arith, room))))))))

-- `line` parses what is shorter than `n` bytes.
abbrev pub LineDone : ℕ → (List ℕ → Parsed) → Type 0
LineDone n line = (t : List ℕ) → length t < n → Done (Good (length t)) (line t)

parseblock-Done :
    (line : List ℕ → Parsed) (fuel : ℕ) (s : List ℕ)
    → length s < fuel
    → LineDone (length s) line
    → Done (Good (length s)) (parseblock line fuel s)
unfolding parseblock peek
parseblock-Done line fuel s enough lines =
    let P = Good (length s) in
    let inner = (gettoken (skip_spaces s)).rest in
    if-Done P (first_in (b'(' ∷ []) (skip_spaces s)) _ _
      (λ block.
        let shorter = peek_shorter (b'(' ∷ []) s block in
        bind-Done (Good (length inner)) P (line inner) _ (lines inner shorter) (λ r h.
          if-Done P (first_in (b')' ∷ []) (skip_spaces r.1)) _ _
            (λ closed.
              let after = (gettoken (skip_spaces r.1)).rest in
              let shorter' = peek_shorter (b')' ∷ []) r.1 closed in
              bind-Done (GoodWrap (length after)) P (parseredirs fuel (λ c. c) after) _
                (parseredirs-Done fuel (λ c. c) after (omega (arith, h.0)) (λ c fits. fits))
                (λ w g. (omega (arith, h.0, g.0), g.1 r.0 h.1)))
            (λ unclosed. tt)))
      (λ other. tt)

parseexec-Done :
    (line : List ℕ → Parsed) (fuel : ℕ) (s : List ℕ)
    → length s < fuel
    → LineDone (length s) line
    → Done (Good (length s)) (parseexec line fuel s)
unfolding parseexec peek
parseexec-Done line fuel s enough lines =
    let P = Good (length s) in
    let t = skip_spaces s in
    let shorter = length-skip_spaces s in
    if-Done P (first_in (b'(' ∷ []) t) _ _
      (λ block.
        weaken (parseblock line fuel t) shorter
          (parseblock-Done line fuel t (omega arith) (λ u lt. lines u (omega (arith, lt)))))
      (λ command.
        bind-Done (GoodWrap (length t)) P (parseredirs fuel (λ c. c) t) _
          (parseredirs-Done fuel (λ c. c) t (omega arith) (λ c fits. fits))
          (λ r h.
            weaken (parseargs fuel [] r.0 r.1) (omega (arith, h.0))
              (parseargs-Done fuel [] r.0 r.1 (omega (arith, h.0)) h.1 (ground arith))))

parsepipe-Done :
    (line : List ℕ → Parsed) (fuel : ℕ) (s : List ℕ)
    → length s < fuel
    → LineDone (length s) line
    → Done (Good (length s)) (parsepipe line fuel s)
unfolding parsepipe peek Fits
parsepipe-Done line zero s enough lines = ground arith
parsepipe-Done line (suc fuel) s enough lines =
    let P = Good (length s) in
    bind-Done P P (parseexec line (suc fuel) s) _ (parseexec-Done line (suc fuel) s enough lines)
      (λ r h.
        if-Done P (first_in (b'|' ∷ []) (skip_spaces r.1)) _ _
          (λ piped.
            let after = (gettoken (skip_spaces r.1)).rest in
            let shorter = peek_shorter (b'|' ∷ []) r.1 piped in
            bind-Done (Good (length after)) P (parsepipe line fuel after) _
              (parsepipe-Done line fuel after (omega (arith, h.0))
                (λ u lt. lines u (omega (arith, lt, h.0))))
              (λ q g. (omega (arith, h.0, g.0), (h.1, g.1))))
          (λ end. (omega (arith, h.0, length-skip_spaces r.1), h.1)))

parsebacks-Done :
    (fuel : ℕ) (cmd : Cmd) (s : List ℕ)
    → length s < fuel
    → Fits cmd
    → Done (Good (length s)) (parsebacks fuel cmd s)
unfolding parsebacks peek Fits
parsebacks-Done zero cmd s enough fits = ground arith
parsebacks-Done (suc fuel) cmd s enough fits =
    let after = (gettoken (skip_spaces s)).rest in
    let more = parsebacks fuel (back cmd) after in
    if-Done (Good (length s)) (first_in (b'&' ∷ []) (skip_spaces s)) more _
      (λ again.
        let shorter = peek_shorter (b'&' ∷ []) s again in
        weaken more (omega arith) (parsebacks-Done fuel (back cmd) after (omega arith) fits))
      (λ end. (length-skip_spaces s, fits))

parseline-Done :
    (fuel : ℕ) (s : List ℕ) → length s < fuel → Done (Good (length s)) (parseline fuel s)
unfolding parseline peek Fits
parseline-Done zero s enough = ground arith
parseline-Done (suc fuel) s enough =
    let P = Good (length s) in
    let line = λ (t : List ℕ). parseline fuel t in
    let lines : LineDone (length s) line = λ t lt. parseline-Done fuel t (omega (arith, lt)) in
    bind-Done P P (parsepipe line (suc fuel) s) _ (parsepipe-Done line (suc fuel) s enough lines)
      (λ r h.
        bind-Done (Good (length r.1)) P (parsebacks (suc fuel) r.0 r.1) _
          (parsebacks-Done (suc fuel) r.0 r.1 (omega (arith, h.0)) h.1)
          (λ b k.
            if-Done P (first_in (b';' ∷ []) (skip_spaces b.1)) _ _
              (λ more.
                let after = (gettoken (skip_spaces b.1)).rest in
                let shorter = peek_shorter (b';' ∷ []) b.1 more in
                bind-Done (Good (length after)) P (line after) _
                  (lines after (omega (arith, h.0, k.0)))
                  (λ q g. (omega (arith, h.0, k.0, g.0), (k.1, g.1))))
              (λ end. (omega (arith, h.0, k.0, length-skip_spaces b.1), k.1))))

-- `parsecmd` finishes on every line: its fuel is enough.  It panics, or it gives a command in which each
-- command to run has fewer than MAXARGS arguments, so that the null pointer behind them is in `argv`.
pub parsecmd-Fits : (s : List ℕ) → Done Fits (parsecmd s)
unfolding parsecmd peek
parsecmd-Fits s =
    bind-Done (Good (length s)) Fits (parseline (length s + 2) s) _
      (parseline-Done (length s + 2) s (omega arith)) (λ r h. finish r.0 (skip_spaces r.1) h.1)
  where
    finish :
        (c : Cmd) (t : List ℕ)
        → Fits c
        → Done Fits (elim t as (λ _. Result Cmd) [ [] ↦ ok c | d ∷ u ↦ panic "syntax" ])
    finish c [] fits = fits
    finish c (d ∷ u) fits = tt
