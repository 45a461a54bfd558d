-- ===== src/Runner/Spelled.antt =====
-- A pattern of the guard in a command: in small or capital letters, with more or other blanks.
use Prim.Native.Char.{Char, code}
use Prim.Native.String.{char_at}
use text.Mathlib.TextEquality.{Char-path}
use pj_clusterintent.Prelude.{
  ℕ, String, Bool, true, false, ◌+◌, ◌<◌, ◌≤◌, ◌≡◌, refl, ◌⊎◌, inl, inr, arith, zero, suc, ◌-◌,
  ◌==◌, ◌&&◌,
}
use pj_clusterintent.Prelude.Lines.{is_blank, starts_word}
use pj_clusterintent.Prelude.Text.{lower_char}

-- `text` is `pattern`, with a capital for some of its small letters and one or more blanks for each space.
pub data Spelled : (pattern text : String) → Type 0 where
  nothing : Spelled String.[] String.[]
  same :
      (c : Char) {p t : String}
      → is_blank (code c) ≡ false
      → (code c < 65) ⊎ (90 < code c)
      → Spelled p t
      → Spelled (String.◌∷◌ c p) (String.◌∷◌ c t)
  capital :
      (c d : Char) {p t : String}
      → 97 ≤ code c
      → code c ≤ 122
      → code d + 32 ≡ code c
      → Spelled p t
      → Spelled (String.◌∷◌ c p) (String.◌∷◌ d t)
  gap :
      (space b : Char) {p t : String}
      → space ≡ " "
      → is_blank (code b) ≡ true
      → starts_word p ≡ true
      → Spelled p t
      → Spelled (String.◌∷◌ space p) (String.◌∷◌ b t)
  wider :
      (space b : Char) {p t : String}
      → space ≡ " "
      → is_blank (code b) ≡ true
      → Spelled (String.◌∷◌ space p) t
      → Spelled (String.◌∷◌ space p) (String.◌∷◌ b t)

pub lower_char_same : (c : Char) → (code c < 65) ⊎ (90 < code c) → lower_char c ≡ c
unfolding lower_char
lower_char_same c (inl h) = ground arith
lower_char_same c (inr h) = ground arith

pub lower_char_blank : (c : Char) → is_blank (code c) ≡ true → lower_char c ≡ c
unfolding lower_char is_blank
lower_char_blank c h = ground arith

small_letters : ℕ → Bool
small_letters zero = true
small_letters (suc n) = code (char_at "abcdefghijklmnopqrstuvwxyz" n) == 97 + n && small_letters n

small_letter :
    (k n : ℕ)
    → small_letters k ≡ true
    → n < k
    → code (char_at "abcdefghijklmnopqrstuvwxyz" n) ≡ 97 + n
unfolding small_letters
small_letter zero n h lt = absurd (omega arith)
small_letter (suc k) n h lt = ground (arith, small_letter k n)

pub lower_char_capital :
    (c d : Char) → 97 ≤ code c → code c ≤ 122 → code d + 32 ≡ code c → lower_char d ≡ c
unfolding lower_char small_letters
lower_char_capital c d h k e =
    Char-path (lower_char d) c (ground (arith, small_letter 26 (code d - 65) refl))

pub capital_is_dark : (c : Char) → 97 ≤ code c → code c ≤ 122 → is_blank (code c) ≡ false
unfolding is_blank
capital_is_dark c h k = ground arith
