-- ===== src/Incident/RoundTrip.antt =====
-- A report that is written and read back.
use Prim.Native.String
use Prim.Native.String.append
use pj_clusterintent.Prelude.{
  String, true, false, suc, some, List, [], ◌∷◌, ◌++◌, foldl, str_eq, length, ◌≡◌, refl, ap, ◌∙◌,
  All,
}
use pj_clusterintent.Prelude.Dict.{get}
use pj_clusterintent.Prelude.Lines.{is_blank, is_break, strip, splitlines, join_with, all_chars}
use pj_clusterintent.Prelude.LineLaws.{
  is_plain, is_unix, all_chars-append, all_chars-strip, strip_idem, strip-cons_blank,
  join-blank_line, universal_newlines-unix,
}
use pj_clusterintent.Prelude.WordLaws.{IsOneLine-dark, IsOneLine}
use pj_clusterintent.Incident.{
  Directory, Moment, Report, file_name, file_text, free_stem, incident_id, write_incident, escape,
  header_lines, time_of, frontmatter_fence,
}
use pj_clusterintent.Incident.FreeName.{stored_inv, write_incident_keeps_others}
use pj_clusterintent.Incident.OneLine.{
  IsOneLine-escape, time_of-IsOneLine, incident_id-IsName, free_stem-IsName,
}
use pj_clusterintent.Incident.Reading.{
  read_incident, stem_of_name, read_line, frontmatter, unread, read_parts,
}
use pj_clusterintent.Incident.Frontmatter.{
  stem_of_name-file_name, splitlines-lines_then, read_line-field, frontmatter-fenced,
  lines_then-unix, field_plain, IsHeader-field, IsHeader,
}

module _ (stem : String) (now : Moment) (report : Report) (one_line : IsOneLine stem)
    (timed : IsOneLine (time_of now)) where
  headers : All IsHeader (header_lines stem now report)
  unfolding header_lines is_blank
  headers = (
    IsHeader-field "i" "d" stem refl refl,
    (
      IsHeader-field "t" "ime" (time_of now) refl refl,
      (
        IsHeader-field "r" "eporter" (escape report.reporter) refl refl,
        (
          IsHeader-field "s" "ource" (escape report.source) refl refl,
          (IsHeader-field "r" "ef" (escape report.ref) refl refl, tt),
        ),
      ),
    ),
  )

  abbrev all_lines : List String
  all_lines = frontmatter_fence ∷ header_lines stem now report ++ frontmatter_fence ∷ "" ∷ []

  plain_lines : All (λ l. all_chars is_plain l ≡ true) all_lines
  unfolding header_lines is_break
  plain_lines = (
    refl,
    (
      field_plain "id" stem refl one_line,
      (
        field_plain "time" (time_of now) refl timed,
        (
          field_plain "reporter" (escape report.reporter) refl (IsOneLine-escape report.reporter),
          (
            field_plain "source" (escape report.source) refl (IsOneLine-escape report.source),
            (
              field_plain "ref" (escape report.ref) refl (IsOneLine-escape report.ref),
              (refl, (refl, tt)),
            ),
          ),
        ),
      ),
    ),
  )

  header_fields : foldl read_line (unread stem) (header_lines stem now report) ≡ record {
    id = stem;
    time = time_of now;
    reporter = escape report.reporter;
    source = escape report.source;
    ref = escape report.ref;
    body = "";
  }
  unfolding header_lines
  header_fields = rw (read_line-field (unread stem) "id" stem refl one_line.1) (
      rw (read_line-field _ "time" (time_of now) refl timed.1) (
        rw
          (read_line-field _ "reporter" (escape report.reporter) refl
            (IsOneLine-escape report.reporter).1)
          (rw
            (read_line-field _ "source" (escape report.source) refl
              (IsOneLine-escape report.source).1)
            (rw (read_line-field _ "ref" (escape report.ref) refl (IsOneLine-escape report.ref).1)
              (unfold strip is_blank in refl)))))

  abbrev body_text : String
  body_text = String.◌++◌ (strip report.description) "\n"

  module _ (unix : all_chars is_unix report.description ≡ true) where
    body_unix : all_chars is_unix (strip report.description) ≡ true
    body_unix = all_chars-strip is_unix report.description unix

    text_unix : all_chars is_unix (file_text stem now report) ≡ true
    unfolding file_text
    text_unix = lines_then-unix all_lines body_text plain_lines (
        all_chars-append is_unix (strip report.description) "\n" body_unix
          (unfold is_break in refl))

    frontmatter-file_text :
        frontmatter (splitlines (file_text stem now report))
        ≡ some (header_lines stem now report, "" ∷ splitlines body_text)
    unfolding file_text header_lines
    frontmatter-file_text =
        ap frontmatter (splitlines-lines_then all_lines body_text plain_lines)
        ∙ frontmatter-fenced (header_lines stem now report) ("" ∷ splitlines body_text) headers

    body_read : strip (join_with "\n" ("" ∷ splitlines body_text)) ≡ strip report.description
    body_read =
        ap strip (join-blank_line (strip report.description) body_unix)
        ∙ strip-cons_blank "\n" (strip report.description) (unfold is_blank in refl)
        ∙ strip_idem report.description

    read_incident-file_text :
        str_eq stem "" ≡ false
        → read_incident (file_name stem) (file_text stem now report) ≡ record {
          id = stem;
          time = time_of now;
          reporter = escape report.reporter;
          source = escape report.source;
          ref = escape report.ref;
          body = strip report.description;
        }
    unfolding read_incident
    read_incident-file_text named =
        ap (λ t. read_parts (unread (stem_of_name (file_name stem))) t (frontmatter (splitlines t)))
          (universal_newlines-unix (file_text stem now report) text_unix)
        ∙ rw (frontmatter-file_text, stem_of_name-file_name stem named, header_fields, body_read)
            refl

-- A report that has been recorded reads back as it was given: the file's stem as its id, the time, the
-- reporter, the source and the reference with their blanks made single, and the report's own text
-- without the blanks at its ends. The condition is that the text has no line break but "\n".
pub write_incident-read :
    (lower : String → String) (report : Report) (now : Moment) (files : Directory) (stem : String)
    (after : Directory)
    → all_chars is_unix report.description ≡ true
    → write_incident lower report now files ≡ some (stem, after)
    → (text : String) × (get (file_name stem) after ≡ some text)
      × (read_incident (file_name stem) text ≡ record {
        id = stem;
        time = time_of now;
        reporter = escape report.reporter;
        source = escape report.source;
        ref = escape report.ref;
        body = strip report.description;
      })
unfolding write_incident
write_incident-read lower report now files stem after unix h =
    let id = incident_id lower report now in
    let named = incident_id-IsName lower report now in
    let (found, _) = stored_inv report now files (free_stem (suc (length files)) files id id 2) h in
    let (dark, some_text) =
      free_stem-IsName id (suc (length files)) files id 2 stem named named found in
    (
      file_text stem now report,
      (write_incident_keeps_others lower report now files stem after h).1,
      read_incident-file_text stem now report (IsOneLine-dark stem dark some_text)
          (time_of-IsOneLine now) unix some_text,
    )
