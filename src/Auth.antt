-- ===== src/Auth.antt =====
-- cagent/src/cagent_api/auth.py: who is calling. A verified peer certificate, the ledger and the
-- answer of Nautobot are arguments; an `AuthError` is a value.
pub mod NodeResolver
pub mod Laws
use pj_clusterintent.Prelude.{
  ℕ, String, Bool, true, false, not, ◌&&◌, leb, Option, none, some, List, [], ◌∷◌, str_eq,
  if◌then◌else◌,
}
use pj_clusterintent.Prelude.Lines.{all_chars}
use pj_clusterintent.Prelude.Result.{Result, ok, err, ◌>>=◌}
use pj_clusterintent.Prelude.Text.{strip_prefix, lower}
use pj_clusterintent.Ledger
use pj_clusterintent.Ledger.{Ledger, entry_is_active}
use pj_clusterintent.Store.Owner.{Identity}
use pj_clusterintent.Auth.NodeResolver.{ResolverError}

abbrev pub node_urn_prefix : String
node_urn_prefix = "urn:clusterintent:node:"

pub record AuthError : Type 0 where
  pub status : ℕ
  pub code : String
  pub message : String

abbrev pub unauthorized : String → AuthError
unauthorized message = record { status = 401; code = "unauthorized"; message = message }

abbrev pub forbidden : String → AuthError
forbidden message = record { status = 403; code = "forbidden"; message = message }

-- The dict of `getpeercert`: a missing serial number is `none`, a missing list of names is empty.
pub record PeerCert : Type 0 where
  pub serial_number : Option String
  pub subject_alt_name : List (String × String)

-- The loop over `subjectAltName`: the first URI with the prefix.
unfoldable pub find_node_uuid : List (String × String) → Option String
unfolding strip_prefix
find_node_uuid [] = none
find_node_uuid ((san_type, value) ∷ names) =
    let later = find_node_uuid names in
    if str_eq san_type "URI"
    then (elim (strip_prefix node_urn_prefix value) [ none ↦ later | some uuid ↦ some uuid ])
    else later

abbrev serial_of : Option String → Option String
serial_of none = none
serial_of (some serial) = if str_eq serial "" then none else some serial

-- `None` and the empty dict of a connection without a certificate are both `none`.
unfoldable pub extract_node_identity : Option PeerCert → Result AuthError (String × String)
unfolding find_node_uuid lower
extract_node_identity none = err (unauthorized "no client certificate presented")
extract_node_identity (some peercert) = elim (serial_of peercert.serial_number) [
  | none ↦ err (unauthorized "client certificate has no serial number")
  | some serial ↦ elim (find_node_uuid peercert.subject_alt_name) [
    | none ↦ err (unauthorized "client certificate has no clusterintent node URI SAN")
    | some node_uuid ↦ ok (node_uuid, lower serial)
  ]
]

abbrev pub node_identity : (node_uuid cert_serial : String) → Identity
node_identity node_uuid cert_serial = record {
  identity_class = "node";
  uuid = some node_uuid;
  cert_serial = some cert_serial;
  name = none;
}

-- The check of DesiredNode validity; `shown` prints the exception.
admit_node :
    (shown : ResolverError → String)
    → Result ResolverError Bool
    → Identity
    → Result AuthError Identity
admit_node shown (err e) identity =
    err (record { status = 502; code = "nautobot_unavailable"; message = shown e })
admit_node shown (ok valid) identity =
    if valid then ok identity else err (forbidden "DesiredNode no longer exists or is not active")

-- `CertAuthenticator.__call__`
unfoldable pub cert_authenticate :
    (shown : ResolverError → String) (is_valid : String → Result ResolverError Bool)
    → Ledger
    → Option PeerCert
    → Result AuthError Identity
unfolding extract_node_identity admit_node
cert_authenticate shown is_valid ledger peercert = do
  (node_uuid, cert_serial) ← extract_node_identity peercert
  if entry_is_active (Ledger.get cert_serial ledger)
      then admit_node shown (is_valid node_uuid) (node_identity node_uuid cert_serial)
      else err (forbidden "certificate not registered or revoked")

abbrev pub human_identity : String → Identity
human_identity name = record {
  identity_class = "human";
  uuid = none;
  cert_serial = none;
  name = some name;
}

abbrev pub is_ascii : String → Bool
is_ascii = all_chars (λ c. leb c 127)

abbrev type_error : AuthError
type_error = record {
  status = 500;
  code = "internal_error";
  message = "comparing strings with non-ASCII characters is not supported";
}

-- `TokenAuthenticator.__call__`; a missing header reads as "". `hmac.compare_digest` compares ASCII text
-- only; on any other it raises a TypeError, which the server answers with status 500.
unfoldable pub token_authenticate :
    (token human_name : String) → Option String → Result AuthError Identity
unfolding strip_prefix
token_authenticate token human_name header =
    elim (strip_prefix "Bearer " (NodeResolver.or_blank header)) [
      | none ↦ err (unauthorized "missing bearer token")
      | some provided ↦
          if not (is_ascii provided && is_ascii token)
          then err type_error
          else if str_eq provided token
          then ok (human_identity human_name)
          else err (unauthorized "invalid token")
    ]

-- `NoAuthenticator.__call__`
unfoldable pub no_authenticate : String → Result AuthError Identity
no_authenticate name =
    ok (record { identity_class = "window"; uuid = none; cert_serial = none; name = some name })
