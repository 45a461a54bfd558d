-- ===== src/Runner/Contexts.antt =====
-- `contexts_tool` of cagent/src/cagent_api/agent_runner.py. The functions of agag.refs are an argument; an
-- error of theirs is a RefsError with its text.
use Prim.Native.String
use pj_clusterintent.Prelude.{String, List, [], ◌∷◌, str_eq, if◌then◌else◌}
use pj_clusterintent.Prelude.Lines.{join_with, split_words}
use pj_clusterintent.Prelude.Result.{Result, ok, err}
use pj_clusterintent.Incident.{joined}

pub record Refs : Type 0 where
  pub listing : Result String String
  pub show_ref : String → Result String String
  pub search_ref : String → List String → Result String (List String)
  -- the name, the revision and its first seven characters
  pub sync : String → Result String (String × String × String)
  pub changes : String → Result String String

abbrev or_error : Result String String → String
or_error (ok text) = text
or_error (err error) = String.◌++◌ "contexts: " error

abbrev hits_text : Result String (List String) → Result String String
hits_text (ok []) = ok "no line holds every term"
hits_text (ok (h ∷ hs)) = ok (join_with "\n" (h ∷ hs))
hits_text (err error) = err error

abbrev synced_text : Result String (String × String × String) → Result String String
synced_text (ok (name, sha, short)) = ok (joined (name ∷ "@" ∷ short ∷ "  (" ∷ sha ∷ ")" ∷ []))
synced_text (err error) = err error

-- `quoted` is Python's `repr` of a text.
unfoldable pub contexts_tool :
    (quoted : String → String) → Refs → (command ref terms : String) → String
contexts_tool quoted refs command ref terms =
    if str_eq command "list"
    then or_error refs.listing
    else if str_eq ref ""
    then "refused: name a reference, <source>@<revision>[:<path>] (revision may be `latest`)"
    else if str_eq command "show"
    then or_error (refs.show_ref ref)
    else if str_eq command "search"
    then or_error (hits_text (refs.search_ref ref (split_words terms)))
    else if str_eq command "sync"
    then or_error (synced_text (refs.sync ref))
    else if str_eq command "changes"
    then or_error (refs.changes ref)
    else joined
        ("refused: unknown command " ∷ quoted command ∷ " (list, show, search, sync, changes)" ∷ [])
