-- ===== src/Engine/Shell.antt =====
-- engine.py, `exec_start_detached`: the line that the shell of the sidecar reads. `shlex.quote` and
-- `shlex.join` of Python's library, and the lexer of a POSIX shell as far as such lines need it.
pub mod Reading
use ha_docker_compose.Prelude.{
  Bool, List, Text, [], all, codes, elem, if◌then◌else◌, leb, nat_eq, pair_eq, text_eq, ℕ, ◌&&◌,
  ◌++◌, ◌==◌, ◌||◌, ◌∷◌,
}

-- The characters that `shlex.quote` leaves as they are, of those below 128: `[\w@%+=:,./-]`.
abbrev pub is_safe : ℕ → Bool
is_safe c =
    (leb b'a' c && leb c b'z')
    || (leb b'A' c && leb c b'Z')
    || (leb b'0' c && leb c b'9')
    || elem c (codes "_@%+=:,./-")

-- `"'\"'\"'"`: a quote within quotes is closed, put in double quotes, and opened again.
abbrev pub escaped_quote : Text
escaped_quote = codes "'\"'\"'"

unfoldable pub escape : Text → Text
escape [] = []
escape (c ∷ s) = let rest = escape s in if c == b'\'' then escaped_quote ++ rest else c ∷ rest

abbrev pub in_quotes : Text → Text
in_quotes s = b'\'' ∷ (escape s ++ b'\'' ∷ [])

-- `shlex.quote`
unfoldable pub quote : Text → Text
unfolding escape
quote [] = codes "''"
quote (c ∷ s) = if all is_safe (c ∷ s) then c ∷ s else in_quotes (c ∷ s)

-- `shlex.join`
unfoldable pub join : List Text → Text
unfolding quote
join [] = []
join (w ∷ []) = quote w
join (w ∷ v ∷ ws) = quote w ++ b' ' ∷ join (v ∷ ws)

-- `f"{shlex.join(cmd)} > {shlex.quote(log_path)} 2>&1"`
unfoldable pub redirected : List Text → Text → Text
unfolding join
redirected cmd log_path = join cmd ++ (codes " > " ++ (quote log_path ++ codes " 2>&1"))
