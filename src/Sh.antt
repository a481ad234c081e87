-- ===== src/Sh.antt =====
-- sh.c: the parser of the shell.  The text that is left, from `*ps` to `es`, is a list of bytes without a
-- NUL; a string from `q` to `eq` is the list of its bytes, as `nulterminate` makes it.
pub mod Words
pub mod Pipelines
pub mod Lengths
pub mod Total
mod Examples
use zv.Prelude.{
  ℕ, zero, suc, ◌+◌, Bool, true, false, ◌&&◌, ◌||◌, not, ◌==◌, leb, if◌then◌else◌, List, [], ◌∷◌,
  ◌++◌, length, Result, ok, panic, waits, ◌>>=◌,
}

-- MAXARGS.
abbrev pub max_args : ℕ
max_args = 10

-- A command; a redirection has its file, its mode and its descriptor.
pub data Cmd : Type 0 where
  exec : List (List ℕ) → Cmd
  redir : Cmd → List ℕ → ℕ → ℕ → Cmd
  pipe : Cmd → Cmd → Cmd
  sequence : Cmd → Cmd → Cmd
  back : Cmd → Cmd

-- `strchr(whitespace, c)` and `strchr(symbols, c)`.
abbrev pub is_space : ℕ → Bool
is_space c = c == b' ' || c == b'\t' || c == b'\r' || c == b'\n' || c == 11

abbrev pub is_symbol : ℕ → Bool
is_symbol c =
    c == b'<' || c == b'|' || c == b'>' || c == b'&' || c == b';' || c == b'(' || c == b')'

unfoldable pub skip_spaces : List ℕ → List ℕ
skip_spaces [] = []
skip_spaces (c ∷ s) = let more = skip_spaces s in if is_space c then more else c ∷ s

-- The loop of the default case of `gettoken`: the word and the rest.
unfoldable pub word : List ℕ → List ℕ × List ℕ
word [] = ([], [])
word (c ∷ s) =
    let more = word s in if is_space c || is_symbol c then ([], c ∷ s) else (c ∷ more.0, more.1)

-- What `gettoken` returns, with the string and the text that is left.
pub record Token : Type 0 where
  pub ret : ℕ
  pub text : List ℕ
  pub rest : List ℕ

abbrev pub starts_with : ℕ → List ℕ → Bool
starts_with c [] = false
starts_with c (d ∷ s) = d == c

abbrev pub tail_of : List ℕ → List ℕ
tail_of [] = []
tail_of (c ∷ s) = s

-- `gettoken` behind the spaces.
unfoldable pub token : List ℕ → Token
unfolding skip_spaces word
token [] = record { ret = 0; text = []; rest = [] }
token (c ∷ s) =
    if c == b'|' || c == b'(' || c == b')' || c == b';' || c == b'&' || c == b'<'
    then record { ret = c; text = c ∷ []; rest = skip_spaces s }
    else if c == b'>'
    then (if starts_with b'>' s
        then record { ret = b'+'; text = c ∷ c ∷ []; rest = skip_spaces (tail_of s) }
        else record { ret = c; text = c ∷ []; rest = skip_spaces s })
    else record { ret = b'a'; text = (word (c ∷ s)).0; rest = skip_spaces (word (c ∷ s)).1 }

unfoldable pub gettoken : List ℕ → Token
unfolding token skip_spaces
gettoken s = token (skip_spaces s)

abbrev pub holds : ℕ → List ℕ → Bool
holds c [] = false
holds c (d ∷ toks) = d == c || holds c toks

abbrev pub first_in : List ℕ → List ℕ → Bool
first_in toks [] = false
first_in toks (c ∷ s) = holds c toks

-- `peek`: the answer, and the text that is left.
unfoldable pub peek : List ℕ → List ℕ → Bool × List ℕ
unfolding skip_spaces
peek toks s = (first_in toks (skip_spaces s), skip_spaces s)

-- A parse: a command and the text that is left.
abbrev pub Parsed : Type 0
Parsed = Result (Cmd × List ℕ)

-- The modes O_RDONLY and O_WRONLY|O_CREATE.
abbrev pub redirected : ℕ → Cmd → List ℕ → Cmd
redirected tok cmd file = if tok == b'<' then redir cmd file 0 0 else redir cmd file 513 1

-- The redirections of a command, as what they make of it; the command of `execcmd` gets its arguments
-- while they are read.
abbrev pub Wrap : Type 0
Wrap = Cmd → Cmd

-- The loop of `parseredirs` on fuel, which `waits` where the fuel does not suffice.
unfoldable pub parseredirs : ℕ → Wrap → List ℕ → Result (Wrap × List ℕ)
unfolding peek gettoken
parseredirs zero wrap s = waits
parseredirs (suc fuel) wrap s =
    let p = peek (b'<' ∷ b'>' ∷ []) s in
    let tok = gettoken p.1 in
    let file = gettoken tok.rest in
    let more = parseredirs fuel (λ c. redirected tok.ret (wrap c) file.text) file.rest in
    if p.0
    then (if file.ret == b'a' then more else panic "missing file for redirection")
    else ok (wrap, p.1)

-- The loop of `parseexec`: the arguments that were read so far are `argv`.
unfoldable pub parseargs : ℕ → List (List ℕ) → Wrap → List ℕ → Parsed
unfolding peek gettoken parseredirs
parseargs zero argv wrap s = waits
parseargs (suc fuel) argv wrap s =
    let p = peek (b'|' ∷ b')' ∷ b'&' ∷ b';' ∷ []) s in
    let tok = gettoken p.1 in
    let argv' = argv ++ (tok.text ∷ []) in
    let more = parseredirs fuel wrap tok.rest >>= λ r. parseargs fuel argv' r.0 r.1 in
    if p.0
    then ok (wrap (exec argv), p.1)
    else if tok.ret == 0
    then ok (wrap (exec argv), tok.rest)
    else if not (tok.ret == b'a')
    then panic "syntax"
    else if leb max_args (length argv')
    then panic "too many args"
    else more

-- `parseblock`; `line` is `parseline`.
unfoldable pub parseblock : (List ℕ → Parsed) → ℕ → List ℕ → Parsed
unfolding peek gettoken parseredirs
parseblock line fuel s =
    let p = peek (b'(' ∷ []) s in
    if p.0
    then (line (gettoken p.1).rest >>= λ r.
        let q = peek (b')' ∷ []) r.1 in
        if q.0
        then (parseredirs fuel (λ c. c) (gettoken q.1).rest >>= λ w. ok (w.0 r.0, w.1))
        else panic "syntax - missing )")
    else panic "parseblock"

unfoldable pub parseexec : (List ℕ → Parsed) → ℕ → List ℕ → Parsed
unfolding peek parseblock parseredirs parseargs
parseexec line fuel s =
    let p = peek (b'(' ∷ []) s in
    if p.0
    then parseblock line fuel p.1
    else (parseredirs fuel (λ c. c) p.1 >>= λ r. parseargs fuel [] r.0 r.1)

-- `parsepipe` on fuel for the commands of the pipe.
unfoldable pub parsepipe : (List ℕ → Parsed) → ℕ → List ℕ → Parsed
unfolding peek gettoken parseexec
parsepipe line zero s = waits
parsepipe line (suc fuel) s =
    let more = λ (t : List ℕ). parsepipe line fuel t in
    parseexec line (suc fuel) s >>= λ r.
    let p = peek (b'|' ∷ []) r.1 in
    if p.0 then (more (gettoken p.1).rest >>= λ q. ok (pipe r.0 q.0, q.1)) else ok (r.0, p.1)

-- The loop over `&` of `parseline`.
unfoldable pub parsebacks : ℕ → Cmd → List ℕ → Parsed
unfolding peek gettoken
parsebacks zero cmd s = waits
parsebacks (suc fuel) cmd s =
    let p = peek (b'&' ∷ []) s in
    let more = parsebacks fuel (back cmd) (gettoken p.1).rest in if p.0 then more else ok (cmd, p.1)

-- `parseline` on fuel, for a line in a block or behind a `;`.
unfoldable pub parseline : ℕ → List ℕ → Parsed
unfolding peek gettoken parsepipe parsebacks
parseline zero s = waits
parseline (suc fuel) s =
    let line = λ (t : List ℕ). parseline fuel t in
    parsepipe line (suc fuel) s >>= λ r. parsebacks (suc fuel) r.0 r.1 >>= λ b.
    let p = peek (b';' ∷ []) b.1 in
    if p.0 then (line (gettoken p.1).rest >>= λ q. ok (sequence b.0 q.0, q.1)) else ok (b.0, p.1)

-- `nulterminate` has no effect on strings that are lists.
unfoldable pub parsecmd : List ℕ → Result Cmd
unfolding parseline peek
parsecmd s = parseline (length s + 2) s >>= λ r. elim (peek [] r.1).1 [
  | [] ↦ ok r.0
  | c ∷ t ↦ panic "syntax"
]
