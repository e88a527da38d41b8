-- ===== src/Engine/Shell/Reading.antt =====
-- `redirected` of engine.py against the lexer of a POSIX shell, as far as such a line needs it: blanks,
-- words, both kinds of quotes, and the redirections of outputs. Whatever else has a meaning to a shell is
-- refused: an unquoted operator, expansion, pattern, comment or escape, and an expansion in double quotes.
use ha_docker_compose.Prelude.{
  Bool, Bool-cases, List, Option, Text, [], all, ap, append-nil, append_assoc, arith, codes, elem,
  eq_iff, false, if◌then◌else◌, inl, inr, leb, map, nat_eq, none, not, pair_eq, refl, some, text_eq,
  true, ℕ, ◌&&◌, ◌++◌, ◌==◌, ◌∙◌, ◌∷◌, ◌≡◌, ◌⊎◌,
}
use ha_docker_compose.Engine.Shell.{is_safe, escape, quote, join, redirected}

pub data Token : Type 0 where
  word io_number operator : Text → Token

-- What is open: nothing, a word of digits only, which is the number of an output if `>` follows at once,
-- a `>`, or quotes; `refused` is the end of reading.
pub data Mode : Type 0 where
  plain number angle single double refused : Mode

-- The tokens so far, the mode, and the word that has begun.
abbrev pub Progress : Type 0
Progress = List Token × Mode × Option Text

abbrev flush : Option Text → List Token
flush none = []
flush (some w) = word w ∷ []

abbrev begun : Option Text → Text
begun none = []
begun (some w) = w

abbrev grow : Option Text → ℕ → Option Text
grow w c = some (begun w ++ c ∷ [])

-- The unquoted characters with a meaning that is not read here, tab and line feed among them.
abbrev pub specials : Text
specials = 9 ∷ 10 ∷ codes "&|;<()$`\\*?[]#~!{}^"

abbrev pub is_special : ℕ → Bool
is_special c = elem c specials

abbrev pub expands_in_quotes : ℕ → Bool
expands_in_quotes c = elem c (codes "$`\\!")

abbrev number_or_plain : ℕ → Mode
number_or_plain c = if leb b'0' c && leb c b'9' then number else plain

-- An unquoted character, and the mode that a character of a word leads to.
abbrev unquoted : Option Text → ℕ → Mode → Progress
unquoted w c m =
    if c == b' '
    then (flush w, plain, none)
    else if c == b'\''
    then ([], single, some (begun w))
    else if c == b'"'
    then ([], double, some (begun w))
    else if c == b'>'
    then (flush w, angle, none)
    else if is_special c
    then ([], refused, none)
    else ([], m, grow w c)

abbrev step_plain : Option Text → ℕ → Progress
step_plain none c = unquoted none c (number_or_plain c)
step_plain (some w) c = unquoted (some w) c plain

abbrev put : List Token → Progress → Progress
put out (rest, m, w) = (out ++ rest, m, w)

-- One character: the tokens that it ends, and the state behind it.
unfoldable pub step : Mode → Option Text → ℕ → Progress
step plain w c = step_plain w c
step number w c =
    if c == b'>' then (io_number (begun w) ∷ [], angle, none) else unquoted w c (number_or_plain c)
step angle w c =
    if c == b'&'
    then (operator (codes ">&") ∷ [], plain, none)
    else if c == b'>'
    then (operator (codes ">>") ∷ [], plain, none)
    else put (operator (codes ">") ∷ []) (step_plain none c)
step single w c = if c == b'\'' then ([], plain, w) else ([], single, grow w c)
step double w c =
    if c == b'"'
    then ([], plain, w)
    else if expands_in_quotes c
    then ([], refused, none)
    else ([], double, grow w c)
step refused w c = ([], refused, none)

unfoldable pub read : Mode → Option Text → Text → Progress
unfolding step
read m w [] = ([], m, w)
read m w (c ∷ s) =
    let (out, m', w') = step m w c in let (rest, m'', w'') = read m' w' s in (out ++ rest, m'', w'')

-- The tokens of a line, `none` where it is refused, or a quote or a redirection is left open.
abbrev finish : Progress → Option (List Token)
finish (out, plain, w) = some (out ++ flush w)
finish (out, number, w) = some (out ++ flush w)
finish (out, _, w) = none

unfoldable pub shell_tokens : Text → Option (List Token)
unfolding read
shell_tokens s = finish (read plain none s)

-- What the line of a command is to mean: the words of the command, standard output to the log, and
-- output 2 to where output 1 goes.
abbrev pub meant : List Text → Text → List Token
meant cmd log_path =
    map word cmd
    ++ (operator (codes ">")
        ∷ word log_path
        ∷ io_number (codes "2")
        ∷ operator (codes ">&")
        ∷ word (codes "1")
        ∷ [])

example_line :
    shell_tokens (redirected (codes "up" ∷ codes "it's $1" ∷ []) (codes "/tmp/a.log"))
    ≡ some (meant (codes "up" ∷ codes "it's $1" ∷ []) (codes "/tmp/a.log"))
unfolding shell_tokens redirected all elem
example_line = refl

refused_line : shell_tokens (codes "up $1") ≡ none
unfolding shell_tokens elem
refused_line = refl

-- Reading goes on from the progress made.
abbrev go_on : Progress → Text → Progress
go_on (out, m, w) b = let (rest, m', w') = read m w b in (out ++ rest, m', w')

read-append : (a b : Text) (m : Mode) (w : Option Text) → read m w (a ++ b) ≡ go_on (read m w a) b
unfolding read
read-append [] b m w = refl
read-append (c ∷ a) b m w = rw (read-append a b (step m w c).1 (step m w c).2, append_assoc)

-- A safe character is no element of a text that has no safe character.
elem-safe :
    (c : ℕ) (s : Text) → is_safe c ≡ true → all (λ d. not (is_safe d)) s ≡ true → elem c s ≡ false
unfolding elem all
elem-safe c [] safe h = refl
elem-safe c (d ∷ s) safe h = elim (Bool-cases (d == c)) [
  | inl same ↦
      let is : d ≡ c = (eq_iff d c).0 same in
      let here : is_safe d ≡ true = rw is safe in absurd (ground (arith, h, here))
  | inr other ↦ elim (Bool-cases (is_safe d)) [
    | inl here ↦ absurd (ground (arith, h, here))
    | inr there ↦ rw other (elem-safe c s safe (rw there at h))
  ]
]

beq-safe : (c d : ℕ) → is_safe c ≡ true → is_safe d ≡ false → (c == d) ≡ false
beq-safe c d safe h = elim (Bool-cases (c == d)) [
  | inl same ↦
      let is : c ≡ d = (eq_iff c d).0 same in
      let here : is_safe d ≡ true = rw is at safe in absurd (ground (arith, h, here))
  | inr other ↦ other
]

unsafe_ones :
    (is_safe b' ' ≡ false)
    × (is_safe b'\'' ≡ false)
    × (is_safe b'"' ≡ false)
    × (is_safe b'>' ≡ false)
    × (all (λ d. not (is_safe d)) specials ≡ true)
unfolding elem all
unsafe_ones = (refl, refl, refl, refl, refl)

unquoted-safe :
    (w : Option Text) (c : ℕ) (m : Mode) → is_safe c ≡ true → unquoted w c m ≡ ([], m, grow w c)
unquoted-safe w c m safe =
    rw
      (
        beq-safe c b' ' safe unsafe_ones.0,
        beq-safe c b'\'' safe unsafe_ones.1,
        beq-safe c b'"' safe unsafe_ones.2,
        beq-safe c b'>' safe unsafe_ones.3,
        elem-safe c specials safe unsafe_ones.4,
      )
      refl

if_not {ℓ} : {A : Type ℓ} (b : Bool) (x y : A) → b ≡ false → (if b then x else y) ≡ y
if_not b x y h = rw h refl

-- A safe character is none that the lexer gives a meaning.
step-safe :
    (w : Text) (c : ℕ)
    → is_safe c ≡ true
    → (step plain (some w) c ≡ ([], plain, grow (some w) c))
      × (step plain none c ≡ ([], number_or_plain c, grow none c))
      × (step number (some w) c ≡ ([], number_or_plain c, grow (some w) c))
unfolding step
step-safe w c h = (
  unquoted-safe (some w) c plain h,
  unquoted-safe none c (number_or_plain c) h,
  if_not (c == b'>') (io_number w ∷ [], angle, none) (unquoted (some w) c (number_or_plain c))
        (beq-safe c b'>' h unsafe_ones.3)
      ∙ unquoted-safe (some w) c (number_or_plain c) h,
)

all-cons :
    (p : ℕ → Bool) (c : ℕ) (s : Text) → all p (c ∷ s) ≡ true → (p c ≡ true) × (all p s ≡ true)
unfolding all
all-cons p c s h = ground (arith, h)

read-safe : (s w : Text) → all is_safe s ≡ true → read plain (some w) s ≡ ([], plain, some (w ++ s))
unfolding read
read-safe [] w h = rw (append-nil w)
read-safe (c ∷ s) w h =
    let (safe, rest) = all-cons is_safe c s h in
    rw ((step-safe w c safe).0, read-safe s (w ++ c ∷ []) rest, append_assoc w (c ∷ []) s)

-- A progress that has read a word, which may be a number.
abbrev HasRead : Text → Progress → Type 0
HasRead w p = (p ≡ ([], plain, some w)) ⊎ (p ≡ ([], number, some w))

HasRead-digits :
    (s w : Text) (m : Mode)
    → all is_safe s ≡ true
    → (m ≡ plain) ⊎ (m ≡ number)
    → HasRead (w ++ s) (read m (some w) s)
unfolding read
HasRead-digits s w m h (inl e) = rw e (inl (read-safe s w h))
HasRead-digits [] w m h (inr e) = rw (e, append-nil w) (inr refl)
HasRead-digits (c ∷ s) w m h (inr e) =
    let (safe, rest) = all-cons is_safe c s h in
    let later =
      HasRead-digits s (w ++ c ∷ []) (number_or_plain c) rest
        (elim (Bool-cases (leb b'0' c && leb c b'9')) [
          | inl digit ↦ inr (ground (arith, digit))
          | inr other ↦ inl (ground (arith, other))
        ]) in
    rw (e, (step-safe w c safe).2) (rw (append_assoc w (c ∷ []) s) at later)

read-escape :
    (s w : Text) → read single (some w) (escape s ++ b'\'' ∷ []) ≡ ([], plain, some (w ++ s))
unfolding read escape step elem
read-escape [] w = rw (append-nil w)
read-escape (c ∷ s) w = ground (arith, read-escape s (w ++ c ∷ []), append_assoc w (c ∷ []) s)

-- A quoted word is read as the word.
HasRead-quote : (w : Text) → HasRead w (read plain none (quote w))
unfolding read quote
HasRead-quote [] = inl refl
HasRead-quote (c ∷ s) = elim (Bool-cases (all is_safe (c ∷ s))) [
  | inl safe ↦
      let (first, rest) = all-cons is_safe c s safe in
      let later =
        HasRead-digits s (c ∷ []) (number_or_plain c) rest
          (elim (Bool-cases (leb b'0' c && leb c b'9')) [
            | inl digit ↦ inr (ground (arith, digit))
            | inr other ↦ inl (ground (arith, other))
          ]) in
      rw (safe, (step-safe [] c first).1) later
  | inr unsafe ↦ rw unsafe (inl (read-escape (c ∷ s) []))
]

-- A quoted word, and what stands behind the blank behind it.
read-quote_append :
    (w b : Text) → read plain none (quote w ++ b' ' ∷ b) ≡ put (word w ∷ []) (read plain none b)
unfolding read step
read-quote_append w b = elim (HasRead-quote w) [
  | inl e ↦ rw (read-append (quote w) (b' ' ∷ b) plain none, e)
  | inr e ↦ rw (read-append (quote w) (b' ' ∷ b) plain none, e)
]

read-join :
    (w : Text) (ws : List Text) (b : Text)
    → read plain none (join (w ∷ ws) ++ b' ' ∷ b) ≡ put (map word (w ∷ ws)) (read plain none b)
unfolding join
read-join w [] b = read-quote_append w b
read-join w (v ∷ ws) b =
    rw (append_assoc, read-quote_append w (join (v ∷ ws) ++ b' ' ∷ b), read-join v ws b)

-- What stands behind the command.
read-log :
    (log_path : Text)
    → read plain none (b'>' ∷ b' ' ∷ (quote log_path ++ codes " 2>&1")) ≡ (
      operator (codes ">") ∷ word log_path ∷ io_number (codes "2") ∷ operator (codes ">&") ∷ [],
      number,
      some (codes "1"),
    )
unfolding read step elem
read-log log_path = rw (read-quote_append log_path (codes "2>&1"))

-- The line that starts a detached command is read by the shell as exactly the words of the command,
-- whatever characters they hold, with both outputs sent to the log file.
pub shell_tokens-redirected :
    (program : Text) (arguments : List Text) (log_path : Text)
    → shell_tokens (redirected (program ∷ arguments) log_path)
      ≡ some (meant (program ∷ arguments) log_path)
unfolding shell_tokens redirected
shell_tokens-redirected program arguments log_path =
    let words = map word (program ∷ arguments) in
    ap finish (
      read-join program arguments (b'>' ∷ b' ' ∷ (quote log_path ++ codes " 2>&1"))
      ∙ ap (put words) (read-log log_path))
    ∙ ap some (append_assoc words _ _)
