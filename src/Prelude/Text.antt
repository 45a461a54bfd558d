-- ===== src/Prelude/Text.antt =====
-- Text, walked character by character, as Python's methods on ASCII text do.
use Prim.Native.Char.{Char, code}
use Prim.Native.Nat.{◌-◌}
use Prim.Native.String.append
use Prim.Native.String.{String, [], ◌∷◌, ◌++◌, char_at}
use mathlib.Core.Path.{◌≡◌, sym, ◌∙◌, ap₂}
use mathlib.Core.Logic.{◌↔◌, inl, inr}
use mathlib.Core.Bool.{◌&&◌}
use mathlib.Core.Option.{Option, none, some}
use native.Mathlib.Omega.{arith}
use text.Mathlib.TextEquality.{Char-path}
use pj_clusterintent.Prelude.Tests.{◌==◌, leb, if◌then◌else◌, some_inj, Bool-cases}

-- `s[len(p):]` if `s.startswith(p)`
unfoldable pub strip_prefix : String → String → Option String
strip_prefix [] s = some s
strip_prefix (c ∷ p) [] = none
strip_prefix (c ∷ p) (d ∷ s) = if code c == code d then strip_prefix p s else none

-- `str.lower` of one ASCII character
unfoldable pub lower_char : Char → Char
lower_char c =
    if leb 65 (code c) && leb (code c) 90
    then char_at "abcdefghijklmnopqrstuvwxyz" (code c - 65)
    else c

unfoldable pub lower : String → String
unfolding lower_char
lower [] = []
lower (c ∷ s) = lower_char c ∷ lower s

strip_prefix_sound : (p s r : String) → strip_prefix p s ≡ some r → s ≡ p ++ r
unfolding strip_prefix
strip_prefix_sound [] s r h = some_inj h ∙ sym (append.nil r)
strip_prefix_sound (c ∷ p) [] r h = cc
strip_prefix_sound (c ∷ p) (d ∷ s) r h = elim (Bool-cases (code c == code d)) [
  | inl e ↦
      ap₂ (λ x t. x ∷ t) (sym (Char-path c d (ground arith))) (strip_prefix_sound p s r (rw e at h))
      ∙ sym (append.cons c p r)
  | inr e ↦ cc (rw e at h)
]

strip_prefix-append : (p r : String) → strip_prefix p (p ++ r) ≡ some r
unfolding strip_prefix
strip_prefix-append [] r = rw append.nil
strip_prefix-append (c ∷ p) r = rw append.cons (ground (arith, strip_prefix-append p r))

-- What is stripped is what stands behind the prefix.
pub strip_prefix_iff : (p s r : String) → (strip_prefix p s ≡ some r) ↔ (s ≡ p ++ r)
strip_prefix_iff p s r = (strip_prefix_sound p s r, λ e. rw e (strip_prefix-append p r))
