-- ===== src/Incident/Reading.antt =====
-- Reading incidents back: `read_incident`, `list_incidents`, `format_listing` and the command line of
-- cagent/src/cagent_api/incident.py, and the two tools over them in agent_runner.py.
use Prim.Native.Char.{code}
use Prim.Native.String
use text.Mathlib.Text.{is_le}
use pj_clusterintent.Prelude.{
  String, Bool, false, ◌==◌, Option, none, some, List, [], ◌∷◌, map, foldl, if◌then◌else◌, str_eq,
  is_some,
}
use pj_clusterintent.Prelude.Lines.{strip, splitlines, join_with, universal_newlines}
use pj_clusterintent.Prelude.Slices.{ℤ, up_to}
use pj_clusterintent.Prelude.Sort.{sort}
use pj_clusterintent.Incident.{Directory, Incident, frontmatter_fence, joined}

-- `Path.stem` of a name that ends in ".md" and is more than that.
unfoldable pub without_md : String → Option String
without_md String.[] = none
without_md (String.◌∷◌ c s) = elim (without_md s) [
  | some stem ↦ some (String.◌∷◌ c stem)
  | none ↦ if str_eq (String.◌∷◌ c s) ".md" then some "" else none
]

-- `Path.stem`, where the name ends in ".md": a name that is the suffix alone keeps it.
unfoldable pub stem_of_name : String → String
unfolding without_md
stem_of_name name = elim (without_md name) [
  | none ↦ name
  | some stem ↦ if str_eq stem "" then name else stem
]

-- `line.partition(":")`, without the middle
unfoldable pub partition_colon : String → String × String
partition_colon String.[] = ("", "")
partition_colon (String.◌∷◌ c s) =
    let (before, after) = partition_colon s in
    if code c == 58 then ("", s) else (String.◌∷◌ c before, after)

abbrev pub set_field : String → String → Incident → Incident
set_field key value r =
    if str_eq key "id"
    then record r { id = value }
    else if str_eq key "time"
    then record r { time = value }
    else if str_eq key "reporter"
    then record r { reporter = value }
    else if str_eq key "source"
    then record r { source = value }
    else if str_eq key "ref"
    then record r { ref = value }
    else if str_eq key "body"
    then record r { body = value }
    else r

unfoldable pub read_line : Incident → String → Incident
unfolding partition_colon strip
read_line r line = let (key, value) = partition_colon line in set_field (strip key) (strip value) r

abbrev onto_header :
    String → Option (List String × List String) → Option (List String × List String)
onto_header line none = none
onto_header line (some (header, after)) = some (line ∷ header, after)

-- The lines up to the closing fence, and those behind it.
unfoldable pub until_fence : List String → Option (List String × List String)
unfolding strip
until_fence [] = none
until_fence (l ∷ ls) =
    let rest = until_fence ls in
    if str_eq (strip l) frontmatter_fence then some ([], ls) else onto_header l rest

abbrev pub with_body : Incident → String → Incident
with_body r body = record r { body = body }

abbrev pub unread : String → Incident
unread stem = record { id = stem; time = ""; reporter = ""; source = ""; ref = ""; body = "" }

-- The header and the body's lines of a file that has both fences.
unfoldable pub frontmatter : List String → Option (List String × List String)
frontmatter [] = none
frontmatter (first ∷ rest) =
    let found = until_fence rest in if str_eq (strip first) frontmatter_fence then found else none

-- A hand-written or damaged file has no frontmatter, and all of it is the body.
unfoldable pub read_parts : Incident → String → Option (List String × List String) → Incident
unfolding read_line strip join_with
read_parts r opened none = with_body r (strip opened)
read_parts r opened (some (header, after)) =
    with_body (foldl read_line r header) (strip (join_with "\n" after))

unfoldable pub read_incident : (name : String) → (text : String) → Incident
unfolding frontmatter universal_newlines splitlines read_parts stem_of_name
read_incident name text =
    let opened = universal_newlines false text in
    read_parts (unread (stem_of_name name)) opened (frontmatter (splitlines opened))

-- The order of the listing: the later name first.
abbrev pub is_later : String × String → String × String → Bool
is_later a b = is_le (String.compare b.0 a.0)

-- `glob("*.md")`
unfoldable pub reports : Directory → Directory
unfolding without_md
reports [] = []
reports (file ∷ files) =
    let rest = reports files in if is_some (without_md file.0) then file ∷ rest else rest

abbrev pub read_file : String × String → Incident
read_file (name, text) = read_incident name text

-- `none` is a directory that does not exist.
unfoldable pub list_incidents : ℤ → Option Directory → List Incident
unfolding reports sort read_incident
list_incidents limit none = []
list_incidents limit (some files) = map read_file (up_to limit (sort is_later (reports files)))

abbrev first_line : List String → String
first_line [] = ""
first_line (l ∷ ls) = l

unfoldable pub format_record : Incident → String
unfolding splitlines
format_record r = joined (
    r.id
    ∷ "\n  time="
    ∷ r.time
    ∷ " reporter="
    ∷ r.reporter
    ∷ " source="
    ∷ r.source
    ∷ " ref="
    ∷ r.ref
    ∷ "\n  "
    ∷ first_line (splitlines r.body)
    ∷ [])

unfoldable pub format_listing : List Incident → String
unfolding format_record join_with
format_listing [] = "no incidents recorded"
format_listing (r ∷ rs) = join_with "\n" (map format_record (r ∷ rs))
