-- ===== src/Examples/AuthRuns.antt =====
-- A node with a certificate that the ledger trusts, and the operator's token.
use pj_clusterintent.Prelude.{String, ◌≡◌, refl, ◌≢◌, true, Bool, some, [], ◌∷◌}
use pj_clusterintent.Prelude.Dict
use pj_clusterintent.Prelude.Result.{Result, ok}
use pj_clusterintent.Prelude.Text.{lower, strip_prefix}
use pj_clusterintent.Ledger
use pj_clusterintent.Ledger.Log.{Action, fold}
use pj_clusterintent.Ledger.{Ledger, get}
use pj_clusterintent.Auth.NodeResolver.{ResolverError}
use pj_clusterintent.Auth.{PeerCert, node_identity, cert_authenticate}
use pj_clusterintent.Auth.Laws.{IsAdmitted, cert_authenticate_sound, revoked_is_refused}

abbrev a_ledger : Ledger
a_ledger = record { ts = 5; serial = "0a"; action = Action.register "u1" "f1" "2030" } ∷ []

abbrev a_cert : PeerCert
a_cert = record {
  serial_number = some "0A";
  subject_alt_name = ("DNS", "a") ∷ ("URI", "urn:clusterintent:node:u1") ∷ [];
}

abbrev all_valid : String → Result ResolverError Bool
all_valid node_uuid = ok true

abbrev shown_blank : ResolverError → String
shown_blank e = ""

a_cert_is_accepted :
    cert_authenticate shown_blank all_valid a_ledger (some a_cert) ≡ ok (node_identity "u1" "0a")
unfolding cert_authenticate lower strip_prefix get fold Dict.get Dict.put
a_cert_is_accepted = refl

cert_authenticate_sound_example :
    IsAdmitted all_valid a_ledger (some a_cert) (node_identity "u1" "0a")
cert_authenticate_sound_example =
    cert_authenticate_sound shown_blank all_valid a_ledger (some a_cert) (node_identity "u1" "0a")
      a_cert_is_accepted

revoked_is_refused_example :
    cert_authenticate shown_blank all_valid (Ledger.revoke 9 (lower "0A") a_ledger).1 (some a_cert)
    ≢ ok (node_identity "u1" "0a")
revoked_is_refused_example =
    revoked_is_refused shown_blank all_valid a_ledger 9 a_cert "0A" (node_identity "u1" "0a") refl
