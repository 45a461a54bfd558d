-- ===== src/Prelude/LineLaws.antt =====
-- Laws of the operations on lines and blanks.
use Prim.Native.Char.{Char, code}
use Prim.Native.String.append
use Prim.Native.String.{String, [], ◌∷◌, ◌++◌}
use Prim.Native.Nat.{ℕ}
use mathlib.Core.Path.{◌≡◌, refl, ap, ap₂, sym, ◌∙◌}
use mathlib.Core.Logic.{inl, inr}
use mathlib.Core.Bool.{Bool, true, false, not, ◌&&◌, ◌||◌}
use mathlib.Core.List.{List}
use native.Mathlib.Omega.{arith}
use text.Mathlib.Text.{◌==◌ as str_eq}
use text.Mathlib.TextEquality.{Char-path}
use pj_clusterintent.Prelude.Tests.{◌==◌, Bool-cases}
use pj_clusterintent.Prelude.Lines.{
  is_break, is_blank, lstrip, rstrip, strip, splitlines, join_with, universal_newlines, all_chars,
}

abbrev pub is_plain : ℕ → Bool
is_plain c = not (is_break c)

-- A line break, if any, is "\n".
abbrev pub is_unix : ℕ → Bool
is_unix c = is_plain c || c == 10

module _ (p : ℕ → Bool) where
  pub all_chars-append :
      (s t : String) → all_chars p s ≡ true → all_chars p t ≡ true → all_chars p (s ++ t) ≡ true
  all_chars-append [] t h k = rw append.nil k
  all_chars-append (c ∷ s) t h k = rw append.cons (ground (arith, all_chars-append s t))

  all_chars-lstrip : (s : String) → all_chars p s ≡ true → all_chars p (lstrip s) ≡ true
  unfolding lstrip
  all_chars-lstrip [] h = h
  all_chars-lstrip (c ∷ s) h = ground (arith, all_chars-lstrip s)

  all_chars-rstrip : (s : String) → all_chars p s ≡ true → all_chars p (rstrip s) ≡ true
  unfolding rstrip
  all_chars-rstrip [] h = h
  all_chars-rstrip (c ∷ s) h = elim (Bool-cases (is_blank (code c) && str_eq (rstrip s) "")) [
    | inl e ↦ rw e refl
    | inr e ↦ rw e (ground (arith, all_chars-rstrip s))
  ]

  pub all_chars-strip : (s : String) → all_chars p s ≡ true → all_chars p (strip s) ≡ true
  unfolding strip
  all_chars-strip s h = all_chars-rstrip (lstrip s) (all_chars-lstrip s h)

rstrip_idem : (s : String) → rstrip (rstrip s) ≡ rstrip s
unfolding rstrip
rstrip_idem [] = refl
rstrip_idem (c ∷ s) = elim (Bool-cases (is_blank (code c) && str_eq (rstrip s) "")) [
  | inl e ↦ rw e refl
  | inr e ↦ rw (e, rstrip_idem s, e) refl
]

pub lstrip-cons : (c : Char) (s : String) → is_blank (code c) ≡ false → lstrip (c ∷ s) ≡ c ∷ s
unfolding lstrip
lstrip-cons c s h = rw h refl

lstrip-rstrip-lstrip : (s : String) → lstrip (rstrip (lstrip s)) ≡ rstrip (lstrip s)
unfolding lstrip rstrip
lstrip-rstrip-lstrip [] = refl
lstrip-rstrip-lstrip (c ∷ s) = elim (Bool-cases (is_blank (code c))) [
  | inl e ↦ rw e (lstrip-rstrip-lstrip s)
  | inr e ↦ rw (e, e) (lstrip-cons c (rstrip s) e)
]

pub strip_idem : (s : String) → strip (strip s) ≡ strip s
unfolding strip
strip_idem s = rw lstrip-rstrip-lstrip (rstrip_idem (lstrip s))

pub strip-cons_blank : (c : Char) (s : String) → is_blank (code c) ≡ true → strip (c ∷ s) ≡ strip s
unfolding strip lstrip
strip-cons_blank c s h = rw h refl

pub strip-cons_dark :
    (c : Char) (s : String) → is_blank (code c) ≡ false → strip (c ∷ s) ≡ c ∷ rstrip s
unfolding strip rstrip
strip-cons_dark c s h = rw (lstrip-cons c s h) (rw h refl)

pub splitlines-append :
    (line rest : String)
    → all_chars is_plain line ≡ true
    → splitlines (line ++ ("\n" ∷ rest)) ≡ List.◌∷◌ line (splitlines rest)
unfolding splitlines
splitlines-append [] rest h = rw append.nil (unfold is_break in refl)
splitlines-append (c ∷ line) rest h =
    rw append.cons (rw (splitlines-append line rest (ground arith)) (ground arith))

some_line :
    (s : String)
    → (first : String) × (rest : List String) × (splitlines (s ++ "\n") ≡ List.◌∷◌ first rest)
unfolding splitlines
some_line [] = ("", List.[], unfold is_break in refl)
some_line (c ∷ s) =
    let (first, rest, lines) = some_line s in
    elim (Bool-cases (is_break (code c))) [
      | inl e ↦ ("", splitlines (s ++ "\n"), rw append.cons (rw e refl))
      | inr e ↦ (c ∷ first, rest, rw append.cons (rw (e, lines) refl))
    ]

pub char-append : (c : Char) (s : String) → (c ∷ "") ++ s ≡ c ∷ s
char-append c s = rw (append.cons, append.nil) refl

join-onto :
    (glue : String) (c : Char) (w : String) (ws : List String)
    → join_with glue (List.◌∷◌ (c ∷ w) ws) ≡ c ∷ join_with glue (List.◌∷◌ w ws)
unfolding join_with
join-onto glue c w List.[] = refl
join-onto glue c w (List.◌∷◌ v ws) = append.cons c w (glue ++ join_with glue (List.◌∷◌ v ws))

is_newline : (c : Char) → is_unix (code c) ≡ true → is_break (code c) ≡ true → c ≡ "\n"
is_newline c h e = Char-path c "\n" (ground arith)

pub join-splitlines :
    (s : String) → all_chars is_unix s ≡ true → join_with "\n" (splitlines (s ++ "\n")) ≡ s
unfolding splitlines join_with
join-splitlines [] h = unfold is_break in refl
join-splitlines (c ∷ s) h =
    let (first, rest, lines) = some_line s in
    elim (Bool-cases (is_break (code c))) [
      | inl e ↦ rw append.cons (
          rw (e, lines, append.nil, char-append)
            (ap₂ (λ x t. x ∷ t) (sym (is_newline c (ground arith) e))
              (ap (join_with "\n") (sym lines) ∙ join-splitlines s (ground arith))))
      | inr e ↦ rw append.cons (
          rw (e, lines)
            (join-onto "\n" c first rest
              ∙ ap (λ t. c ∷ t)
                  (ap (join_with "\n") (sym lines) ∙ join-splitlines s (ground arith))))
    ]

pub join-blank_line :
    (s : String)
    → all_chars is_unix s ≡ true
    → join_with "\n" (List.◌∷◌ "" (splitlines (s ++ "\n"))) ≡ "\n" ∷ s
unfolding join_with
join-blank_line s h =
    let (first, rest, lines) = some_line s in
    rw lines (
      rw (append.nil, char-append)
        (ap (λ t. "\n" ∷ t) (ap (join_with "\n") (sym lines) ∙ join-splitlines s h)))

not_return : (c : ℕ) → is_unix c ≡ true → (c == 13) ≡ false
unfolding is_break
not_return c h = ground arith

pub universal_newlines-unix :
    (s : String) → all_chars is_unix s ≡ true → universal_newlines false s ≡ s
unfolding universal_newlines
universal_newlines-unix [] h = refl
universal_newlines-unix (c ∷ s) h =
    rw (not_return (code c) (ground arith))
      (ap (λ t. c ∷ t) (universal_newlines-unix s (ground arith)))
