-- ===== src/Prelude/Lines.antt =====
-- Python's `str.strip`, `str.split`, `str.splitlines` and `"\n".join`, and the newlines of a text file.
use Prim.Native.Char.{Char, code}
use Prim.Native.String.{String, [], ◌∷◌, ◌++◌}
use Prim.Native.Nat.{ℕ}
use mathlib.Core.Bool.{Bool, true, false, not, ◌&&◌, ◌||◌}
use mathlib.Core.List.{List}
use text.Mathlib.Text.{◌==◌ as str_eq}
use pj_clusterintent.Prelude.Tests.{◌==◌, leb, if◌then◌else◌}

-- The line boundaries of `splitlines`.
unfoldable pub is_break : ℕ → Bool
is_break c = (leb 10 c && leb c 13) || (leb 28 c && leb c 30) || c == 133 || c == 8232 || c == 8233

-- `str.isspace` of one character
unfoldable pub is_blank : ℕ → Bool
is_blank c =
    (leb 9 c && leb c 13)
    || (leb 28 c && leb c 32)
    || c == 133
    || c == 160
    || c == 5760
    || (leb 8192 c && leb c 8202)
    || c == 8232
    || c == 8233
    || c == 8239
    || c == 8287
    || c == 12288

unfoldable pub lstrip : String → String
lstrip [] = ""
lstrip (c ∷ s) = let rest = lstrip s in if is_blank (code c) then rest else c ∷ s

unfoldable pub rstrip : String → String
rstrip [] = ""
rstrip (c ∷ s) = let rest = rstrip s in if is_blank (code c) && str_eq rest "" then "" else c ∷ rest

unfoldable pub strip : String → String
unfolding lstrip rstrip
strip s = rstrip (lstrip s)

abbrev pub starts_word : String → Bool
starts_word [] = false
starts_word (c ∷ s) = not (is_blank (code c))

-- A character at the front of the first word or line.
abbrev pub onto_first : Char → List String → List String
onto_first c List.[] = List.◌∷◌ (c ∷ "") List.[]
onto_first c (List.◌∷◌ w ws) = List.◌∷◌ (c ∷ w) ws

-- `text.split()`
unfoldable pub split_words : String → List String
split_words [] = List.[]
split_words (c ∷ s) =
    let rest = split_words s in
    if is_blank (code c)
    then rest
    else if starts_word s
    then onto_first c rest
    else List.◌∷◌ (c ∷ "") rest

-- `text.splitlines()`, of a text without the pair "\r\n"
unfoldable pub splitlines : String → List String
splitlines [] = List.[]
splitlines (c ∷ s) =
    let rest = splitlines s in if is_break (code c) then List.◌∷◌ "" rest else onto_first c rest

unfoldable pub join_with : String → List String → String
join_with glue List.[] = ""
join_with glue (List.◌∷◌ w List.[]) = w
join_with glue (List.◌∷◌ w (List.◌∷◌ v ws)) = w ++ (glue ++ join_with glue (List.◌∷◌ v ws))

-- What a text file opened for reading gives: "\r\n" and "\r" are "\n". The flag says that "\r" stands in front.
unfoldable pub universal_newlines : Bool → String → String
universal_newlines after_return [] = ""
universal_newlines after_return (c ∷ s) =
    let after = universal_newlines true s in
    let rest = universal_newlines false s in
    if code c == 13 then "\n" ∷ after else if after_return && code c == 10 then rest else c ∷ rest

abbrev pub all_chars : (ℕ → Bool) → String → Bool
all_chars p [] = true
all_chars p (c ∷ s) = p (code c) && all_chars p s
