-- ===== src/Evidence/Console.antt =====
-- cagent/src/cagent_api/evidence_cli.py: `cagent-evidence`. `dump` is the text that json.dumps gives of a record,
-- and `line` of an event.
use Prim.Native.String
use pj_clusterintent.Prelude.{String, Option, none, some, List, [], ◌∷◌, str_eq, if◌then◌else◌}
use pj_clusterintent.Prelude.Dict
use pj_clusterintent.Prelude.Dict.{Dict}
use pj_clusterintent.Evidence.{
  Evidence, RequestState, RequestRecord, StateEvent, read_request, read_latest_event,
  list_request_ids,
}

-- A key of the identity object that is missing, or null, is printed as "None".
abbrev printed_key : String → Dict (Option String) → String
printed_key key identity = elim (Dict.get key identity) [
  | none ↦ "None"
  | some value ↦ elim value [ none ↦ "None" | some text ↦ text ]
]

unfoldable pub identity_label : Dict (Option String) → String
identity_label identity =
    if str_eq (printed_key "class" identity) "human"
    then String.◌++◌ "human:" (printed_key "name" identity)
    else String.◌++◌ "node:" (printed_key "uuid" identity)

-- One row, before it is laid out: `none` is the state "unknown".
pub record Row : Type 0 where
  pub request_id : String
  pub state : Option RequestState
  pub label : String
  pub session_id : String

abbrev row_of : String → Option StateEvent → RequestRecord → Row
row_of request_id latest r = record {
  request_id = request_id;
  state = elim latest [ none ↦ none | some event ↦ some event.state ];
  label = identity_label r.identity;
  session_id = r.session_id;
}

-- `none` is the FileNotFoundError of a request that has gone meanwhile.
unfoldable pub rows : Evidence → List String → Option (List Row)
unfolding identity_label
rows evidence [] = some []
rows evidence (id ∷ ids) = elim (read_request id evidence) [
  | none ↦ none
  | some r ↦ elim (rows evidence ids) [
    | none ↦ none
    | some later ↦ some (row_of id (read_latest_event id evidence) r ∷ later)
  ]
]

unfoldable pub cmd_list : Evidence → Option (List Row)
unfolding rows
cmd_list evidence = rows evidence (list_request_ids evidence)

-- What the process ends with: what it has printed, with its exit status 0 or 1, or an exception.
pub data Ending : Type 0 where
  listed : List Row → Ending
  printed : List String → Ending
  no_evidence : (request_id : String) → Ending
  raised : Ending

module _ (dump : RequestRecord → String) (line : StateEvent → String) where
  abbrev pub event_lines : List StateEvent → List String
  event_lines [] = []
  event_lines (e ∷ es) = line e ∷ event_lines es

  abbrev pub events_of : String → Evidence → List StateEvent
  events_of request_id evidence = elim (Dict.get request_id evidence) [
    | none ↦ []
    | some directory ↦ directory.events
  ]

  -- `none` is the FileNotFoundError.
  unfoldable pub cmd_show : String → Evidence → Option (List String)
  cmd_show request_id evidence = elim (read_request request_id evidence) [
    | none ↦ none
    | some r ↦ some (dump r ∷ "--- events ---" ∷ event_lines (events_of request_id evidence))
  ]

  pub data Arguments : Type 0 where
    list : Arguments
    show : (request_id : String) → Arguments

  unfoldable pub main : Arguments → Evidence → Ending
  unfolding cmd_list cmd_show
  main Arguments.list evidence = elim (cmd_list evidence) [
    | none ↦ Ending.raised
    | some table ↦ Ending.listed table
  ]
  main (Arguments.show request_id) evidence = elim (cmd_show request_id evidence) [
    | none ↦ Ending.no_evidence request_id
    | some lines ↦ Ending.printed lines
  ]
