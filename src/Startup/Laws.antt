-- ===== src/Startup/Laws.antt =====
-- The human door never opens without a secret.
use mathlib.Core.Bool.{false≢true}
use Prim.Native.String
use text.Mathlib.TextLemmas.{append-eq-nil_iff}
use pj_clusterintent.Prelude.{
  ℕ, String, Option, none, some, str_eq, eq_iff, ◌≡◌, ◌≢◌, refl, sym, ap, ◌∙◌, inl, inr, Bool-cases,
}
use pj_clusterintent.Prelude.Lines.{strip}
use pj_clusterintent.Prelude.Result.{Result, ok, succeeds, ok_inj}
use pj_clusterintent.Auth.{token_authenticate, human_identity}
use pj_clusterintent.Auth.NodeResolver.{or_blank}
use pj_clusterintent.Auth.Laws.{token_authenticate_iff}
use pj_clusterintent.Evidence.{Evidence}
use pj_clusterintent.Runner.{Agent}
use pj_clusterintent.Store.Owner.{Identity}
use pj_clusterintent.Store.Scan.{scan_and_load}
use pj_clusterintent.Startup.{Service, runner_for, or_exit, read_human_token, startup}

read_human_token_ok :
    (token_file : Option String) (token : String)
    → read_human_token token_file ≡ ok token
    → (text : String) × (token_file ≡ some text) × (token ≡ strip text) × (token ≢ "")
unfolding read_human_token
read_human_token_ok none token h = cc
read_human_token_ok (some text) token h = elim (Bool-cases (str_eq (strip text) "")) [
  | inl e ↦ cc (rw e at h)
  | inr e ↦
      let same : strip text ≡ token = ok_inj (rw e at h) in
      (
        text,
        refl,
        sym same,
        λ empty. false≢true (sym e ∙ (eq_iff (strip text) "").1 (same ∙ empty)),
      )
]

sent_header :
    (header : Option String) (token : String)
    → or_blank header ≡ String.◌++◌ "Bearer " token
    → header ≡ some (String.◌++◌ "Bearer " token)
sent_header none token h = cc ((append-eq-nil_iff {p = "Bearer "} {q = token}).0 (sym h)).0
sent_header (some text) token h = ap some h

started_read_token :
    (build_runner : String → Result String Agent) (token_file : Option String) (now : ℕ)
    (evidence : Evidence) (service : Service)
    → startup build_runner token_file now evidence ≡ ok service
    → read_human_token token_file ≡ ok service.human_token
unfolding startup
started_read_token build_runner token_file now evidence service h =
    let (token, read, with_token) = succeeds _ (read_human_token token_file) h in
    let (loaded, _, with_store) = succeeds _ (or_exit (scan_and_load now evidence)) with_token in
    let (node, _, with_node) = succeeds _ (runner_for build_runner "node") with_store in
    let (human, _, with_human) = succeeds _ (runner_for build_runner "human") with_node in
    let (window, _, made) = succeeds _ (runner_for build_runner "front") with_human in
    read ∙ ap (λ (s : Service). ok s.human_token) (ok_inj made)

-- A service that started has read the token of its human door from a file that is there: the file's text
-- without the blanks at its ends, which is not empty. Where that door asks for a token, it accepts no
-- header but "Bearer " with this token, and takes whoever sends it for its one operator.
pub started_needs_token :
    (build_runner : String → Result String Agent) (token_file : Option String) (now : ℕ)
    (evidence : Evidence) (service : Service)
    → startup build_runner token_file now evidence ≡ ok service
    → (text : String) × (token_file ≡ some text)
      × (service.human_token ≡ strip text)
      × (service.human_token ≢ "")
      × ((human_name : String) (header : Option String) (identity : Identity)
          → token_authenticate service.human_token human_name header ≡ ok identity
          → (header ≡ some (String.◌++◌ "Bearer " (strip text)))
            × (identity ≡ human_identity human_name))
started_needs_token build_runner token_file now evidence service h =
    let (text, there, same, filled) =
      read_human_token_ok token_file service.human_token
        (started_read_token build_runner token_file now evidence service h) in
    (
      text,
      there,
      same,
      filled,
      λ human_name header identity accepted.
          let (sent, known, _) =
            (token_authenticate_iff service.human_token human_name header identity).0 accepted in
          (sent_header header (strip text) (sent ∙ ap (String.◌++◌ "Bearer ") same), sym known),
    )
