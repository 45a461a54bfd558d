-- ===== src/Incident.antt =====
-- cagent/src/cagent_api/incident.py: one defect report is one text file. The directory is its file names
-- with their texts; Python's `str.lower` is the argument `lower`.
pub mod Slug
pub mod Reading
pub mod FreeName
pub mod OneLine
pub mod Frontmatter
pub mod RoundTrip
pub mod Commands
pub mod Listing
use Prim.Native.Char.{code}
use Prim.Native.String
use text.Mathlib.Text.{is_le}
use pj_clusterintent.Prelude.{
  ℕ, String, Bool, true, false, zero, suc, ◌==◌, ltb, Option, none, some, List, [], ◌∷◌, ◌++◌, map,
  foldl, if◌then◌else◌, str_eq, is_some, length, ◌≡◌, refl,
}
use pj_clusterintent.Prelude.Dict.{Dict, get, put}
use pj_clusterintent.Prelude.Digits.{in_base}
use pj_clusterintent.Prelude.Lines.{
  strip, split_words, splitlines, join_with, universal_newlines, is_blank, is_break,
}
use pj_clusterintent.Prelude.Slices.{ℤ, up_to}
use pj_clusterintent.Prelude.Sort.{sort}
use pj_clusterintent.Incident.Slug.{slugify, or_text}

abbrev pub Directory : Type 0
Directory = Dict String

-- A time in UTC.
pub record Moment : Type 0 where
  pub year : ℕ
  pub month : ℕ
  pub day : ℕ
  pub hour : ℕ
  pub minute : ℕ
  pub second : ℕ

pub record Incident : Type 0 where
  pub id : String
  pub time : String
  pub reporter : String
  pub source : String
  pub ref : String
  pub body : String

abbrev pub frontmatter_fence : String
frontmatter_fence = "---"

abbrev pub joined : List String → String
joined [] = ""
joined (s ∷ ss) = String.◌++◌ s (joined ss)

unfoldable pub two_digits : ℕ → String
two_digits n = if ltb n 10 then String.◌++◌ "0" (in_base 10 n) else in_base 10 n

-- `%Y%m%dT%H%M%SZ`
unfoldable pub stamp_of : Moment → String
stamp_of now = joined (
    in_base 10 now.year
    ∷ two_digits now.month
    ∷ two_digits now.day
    ∷ "T"
    ∷ two_digits now.hour
    ∷ two_digits now.minute
    ∷ two_digits now.second
    ∷ "Z"
    ∷ [])

-- `%Y-%m-%dT%H:%M:%SZ`
unfoldable pub time_of : Moment → String
time_of now = joined (
    in_base 10 now.year
    ∷ "-"
    ∷ two_digits now.month
    ∷ "-"
    ∷ two_digits now.day
    ∷ "T"
    ∷ two_digits now.hour
    ∷ ":"
    ∷ two_digits now.minute
    ∷ ":"
    ∷ two_digits now.second
    ∷ "Z"
    ∷ [])

unfoldable pub escape : String → String
unfolding split_words join_with
escape value = or_text (join_with " " (split_words value)) "-"

abbrev pub file_name : String → String
file_name stem = String.◌++◌ stem ".md"

abbrev pub exists : Directory → String → Bool
exists files name = is_some (get name files)

-- The loop that looks for a free name: `none` is a loop that the fuel did not end.
unfoldable pub free_stem :
    (fuel : ℕ) → Directory → (id : String) → (stem : String) → ℕ → Option String
free_stem zero files id stem suffix = none
free_stem (suc fuel) files id stem suffix =
    let next = String.◌++◌ id (String.◌∷◌ "-" (in_base 10 suffix)) in
    let rest = free_stem fuel files id next (suc suffix) in
    if exists files (file_name stem) then rest else some stem

-- Each line with its line break, and what follows.
abbrev pub lines_then : List String → String → String
lines_then [] rest = rest
lines_then (l ∷ ls) rest = String.◌++◌ l (String.◌∷◌ "\n" (lines_then ls rest))

pub record Report : Type 0 where
  pub description : String
  pub reporter : String
  pub source : String
  pub ref : String

-- `f"{key}: {value}"`
abbrev pub field : String → String → String
field key value = String.◌++◌ key (String.◌∷◌ ":" (String.◌∷◌ " " value))

unfoldable pub header_lines : (stem : String) → Moment → Report → List String
header_lines stem now report =
    field "id" stem
    ∷ field "time" (time_of now)
    ∷ field "reporter" (escape report.reporter)
    ∷ field "source" (escape report.source)
    ∷ field "ref" (escape report.ref)
    ∷ []

unfoldable pub file_text : (stem : String) → Moment → Report → String
file_text stem now report =
    lines_then (frontmatter_fence ∷ header_lines stem now report ++ frontmatter_fence ∷ "" ∷ [])
      (String.◌++◌ (strip report.description) "\n")

unfoldable pub incident_id : (lower : String → String) → Report → Moment → String
incident_id lower report now =
    String.◌++◌ (stamp_of now) (String.◌∷◌ "-" (slugify lower report.description))

-- The report's file, under the name that was found.
abbrev pub stored :
    Report → Moment → Directory → (found : Option String) → Option (String × Directory)
stored report now files none = none
stored report now files (some stem) =
    some (stem, put (file_name stem) (file_text stem now report) files)

-- The stem of the file that is written, and the directory afterwards.
unfoldable pub write_incident :
    (lower : String → String) → Report → Moment → Directory → Option (String × Directory)
write_incident lower report now files =
    let id = incident_id lower report now in
    stored report now files (free_stem (suc (length files)) files id id 2)
