-- ===== src/Nctl/Shlex.antt =====
-- Python's `shlex.split` (POSIX, no comments), `shlex.quote` and `shlex.join`, which readonly_nctl.py
-- and cli.py rest on. A word that has begun is never empty unless it was quoted, so the reader's
-- `quoted` flag is not kept apart.
use Prim.Native.Char.{Char, code}
use Prim.Native.String
use pj_clusterintent.Prelude.{
  ℕ, String, Bool, true, false, Option, none, some, List, [], ◌∷◌, ◌==◌, leb, if◌then◌else◌, ◌&&◌,
  ◌||◌, ◌≡◌, refl,
}

-- The reader's `state`: between words, in a word, inside quotes, or behind a backslash in one of these.
pub data Mode : Type 0 where
  space word single double word_escape double_escape : Mode

abbrev pub is_space : ℕ → Bool
is_space c = c == 32 || c == 9 || c == 13 || c == 10

abbrev pub push : String → Char → String
push token c = String.◌++◌ token (String.◌∷◌ c String.[])

abbrev pub emit : String → Option (List String) → Option (List String)
emit token none = none
emit token (some tokens) = some (token ∷ tokens)

-- A backslash inside double quotes stands for itself before all but `"` and `\`.
abbrev unescaped : String → Char → String
unescaped token c = if code c == 34 || code c == 92 then push token c else push (push token "\\") c

-- What the next character does: the mode and the token after it, and whether a token ends here.
pub record Turn : Type 0 where
  pub ends : Bool
  pub mode : Mode
  pub token : String

abbrev go : Mode → String → Turn
go mode token = record { ends = false; mode = mode; token = token }

abbrev in_word : String → Char → Turn
in_word token c =
    if code c == 92
    then go Mode.word_escape token
    else if code c == 39
    then go Mode.single token
    else if code c == 34
    then go Mode.double token
    else go Mode.word (push token c)

unfoldable pub turn : Mode → String → Char → Turn
turn Mode.space token c = if is_space (code c) then go Mode.space token else in_word token c
turn Mode.word token c =
    if is_space (code c)
    then record { ends = true; mode = Mode.space; token = token }
    else in_word token c
turn Mode.single token c =
    if code c == 39 then go Mode.word token else go Mode.single (push token c)
turn Mode.double token c =
    if code c == 34
    then go Mode.word token
    else if code c == 92
    then go Mode.double_escape token
    else go Mode.double (push token c)
turn Mode.word_escape token c = go Mode.word (push token c)
turn Mode.double_escape token c = go Mode.double (unescaped token c)

-- `none` is a ValueError: no closing quotation, or nothing behind a backslash.
abbrev at_end : Mode → String → Option (List String)
at_end Mode.space token = some []
at_end Mode.word token = some (token ∷ [])
at_end _ token = none

unfoldable pub split_from : Mode → String → String → Option (List String)
unfolding turn
split_from mode token String.[] = at_end mode token
split_from mode token (String.◌∷◌ c s) =
    let t = turn mode token c in
    let rest = split_from t.mode (if t.ends then "" else t.token) s in
    if t.ends then emit token rest else rest

unfoldable pub split : String → Option (List String)
unfolding split_from
split args = split_from Mode.space "" args

-- `[a-zA-Z0-9_@%+=:,./-]`
abbrev pub is_safe : ℕ → Bool
is_safe c =
    (leb 97 c && leb c 122)
    || (leb 65 c && leb c 90)
    || (leb 48 c && leb c 57)
    || c == 95
    || c == 64
    || c == 37
    || c == 43
    || c == 61
    || c == 58
    || c == 44
    || c == 46
    || c == 47
    || c == 45

abbrev pub all_safe : String → Bool
all_safe String.[] = true
all_safe (String.◌∷◌ c s) = is_safe (code c) && all_safe s

-- `s.replace("'", "'\"'\"'") + "'"`, the text behind the opening quote
unfoldable pub quote_rest : String → String
quote_rest String.[] = "'"
quote_rest (String.◌∷◌ c s) =
    if code c == 39 then String.◌++◌ "'\"'\"'" (quote_rest s) else String.◌∷◌ c (quote_rest s)

unfoldable pub quote : String → String
unfolding quote_rest
quote String.[] = "''"
quote (String.◌∷◌ c s) =
    if all_safe (String.◌∷◌ c s)
    then String.◌∷◌ c s
    else String.◌∷◌ "'" (quote_rest (String.◌∷◌ c s))

unfoldable pub join : List String → String
unfolding quote
join [] = ""
join (w ∷ []) = quote w
join (w ∷ v ∷ ws) = String.◌++◌ (quote w) (String.◌∷◌ " " (join (v ∷ ws)))

test_split : split "drift --host 'a \"b' c\\ d" ≡ some ("drift" ∷ "--host" ∷ "a \"b" ∷ "c d" ∷ [])
unfolding split
test_split = refl

test_join : split (join ("it's" ∷ "" ∷ "a b" ∷ [])) ≡ some ("it's" ∷ "" ∷ "a b" ∷ [])
unfolding split join
test_join = refl
