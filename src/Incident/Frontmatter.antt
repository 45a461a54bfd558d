-- ===== src/Incident/Frontmatter.antt =====
-- The front matter of a report file: what a written line reads as.
use Prim.Native.Char.{Char, code}
use Prim.Native.String
use Prim.Native.String.append
use pj_clusterintent.Prelude.{
  String, true, false, ◌==◌, not, some, List, [], ◌∷◌, ◌++◌, str_eq, ◌≡◌, refl, ap, ◌∙◌, inl, inr,
  arith, Bool-cases, eq_iff, All,
}
use text.Mathlib.TextLemmas.{head-eq_of_cons-eq}
use pj_clusterintent.Prelude.Lines.{is_blank, is_break, strip, rstrip, splitlines, all_chars}
use pj_clusterintent.Prelude.LineLaws.{
  is_plain, is_unix, all_chars-append, strip-cons_blank, strip-cons_dark, splitlines-append,
}
use pj_clusterintent.Prelude.WordLaws.{IsOneLine}
use pj_clusterintent.Incident.{Incident, file_name, lines_then, frontmatter_fence, field}
use pj_clusterintent.Incident.Reading.{
  without_md, stem_of_name, partition_colon, set_field, read_line, until_fence, frontmatter,
}

pub without_md-append : (s : String) → without_md (String.◌++◌ s ".md") ≡ some s
unfolding without_md
without_md-append String.[] = refl
without_md-append (String.◌∷◌ c s) = rw append.cons (rw (without_md, without_md-append s) refl)

pub stem_of_name-file_name :
    (stem : String) → str_eq stem "" ≡ false → stem_of_name (file_name stem) ≡ stem
unfolding stem_of_name
stem_of_name-file_name stem h = rw (stem_of_name, without_md-append stem, h) refl

pub splitlines-lines_then :
    (ls : List String) (rest : String)
    → All (λ l. all_chars is_plain l ≡ true) ls
    → splitlines (lines_then ls rest) ≡ ls ++ splitlines rest
splitlines-lines_then [] rest h = refl
splitlines-lines_then (l ∷ ls) rest (h, hs) =
    splitlines-append l (lines_then ls rest) h ∙ ap (λ t. l ∷ t) (splitlines-lines_then ls rest hs)

partition_colon-append :
    (key rest : String)
    → all_chars (λ c. not (c == 58)) key ≡ true
    → partition_colon (String.◌++◌ key (String.◌∷◌ ":" rest)) ≡ (key, rest)
unfolding partition_colon
partition_colon-append String.[] rest h = rw append.nil refl
partition_colon-append (String.◌∷◌ c key) rest h =
    rw append.cons (rw (partition_colon-append key rest (ground arith)) (ground arith))

pub read_line-field :
    (r : Incident) (key value : String)
    → all_chars (λ c. not (c == 58)) key ≡ true
    → strip value ≡ value
    → read_line r (field key value) ≡ set_field (strip key) value r
unfolding read_line
read_line-field r key value h k =
    rw (partition_colon-append key (String.◌∷◌ " " value) h)
      (rw (strip-cons_blank " " value (unfold is_blank in refl), k) refl)

not_fence :
    (c : Char) (s : String)
    → is_blank (code c) ≡ false
    → (code c == 45) ≡ false
    → str_eq (strip (String.◌∷◌ c s)) "---" ≡ false
not_fence c s h k =
    rw (strip-cons_dark c s h) (elim (Bool-cases (str_eq (String.◌∷◌ c (rstrip s)) "---")) [
      | inl e ↦
          ground
            (arith, ap code (head-eq_of_cons-eq ((eq_iff (String.◌∷◌ c (rstrip s)) "---").0 e)))
      | inr e ↦ e
    ])

unfoldable pub IsHeader : String → Type 0
IsHeader line = str_eq (strip line) "---" ≡ false

until_fence-append :
    (header after : List String)
    → All IsHeader header
    → until_fence (header ++ frontmatter_fence ∷ after) ≡ some (header, after)
unfolding until_fence IsHeader
until_fence-append [] after h = unfold strip is_blank in refl
until_fence-append (l ∷ ls) after (h, hs) = rw h (rw (until_fence-append ls after hs) refl)

pub frontmatter-fenced :
    (header after : List String)
    → All IsHeader header
    → frontmatter (frontmatter_fence ∷ header ++ frontmatter_fence ∷ after) ≡ some (header, after)
unfolding frontmatter strip is_blank
frontmatter-fenced header after h = until_fence-append header after h

all_chars-unix : (s : String) → all_chars is_plain s ≡ true → all_chars is_unix s ≡ true
all_chars-unix String.[] h = refl
all_chars-unix (String.◌∷◌ c s) h = ground (arith, all_chars-unix s)

pub lines_then-unix :
    (ls : List String) (rest : String)
    → All (λ l. all_chars is_plain l ≡ true) ls
    → all_chars is_unix rest ≡ true
    → all_chars is_unix (lines_then ls rest) ≡ true
lines_then-unix [] rest h k = k
lines_then-unix (l ∷ ls) rest (h, hs) k =
    all_chars-append is_unix l (String.◌∷◌ "\n" (lines_then ls rest)) (all_chars-unix l h)
      (ground (arith, lines_then-unix ls rest hs k))

pub field_plain :
    (key value : String)
    → all_chars is_plain key ≡ true
    → IsOneLine value
    → all_chars is_plain (field key value) ≡ true
unfolding is_break
field_plain key value h (k, _) =
    all_chars-append is_plain key (String.◌∷◌ ":" (String.◌∷◌ " " value)) h k

-- No line of the header is the fence: a header line starts with a letter.
pub IsHeader-field :
    (c : Char) (key value : String)
    → is_blank (code c) ≡ false
    → (code c == 45) ≡ false
    → IsHeader (field (String.◌∷◌ c key) value)
unfolding IsHeader
IsHeader-field c key value h k = rw append.cons (not_fence c (field key value) h k)
