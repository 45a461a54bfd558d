-- ===== src/Examples/CaRuns.antt =====
-- A CA, a node's certificate under it, and the node's first call.
use Prim.Native.String
use pj_clusterintent.Prelude.{
  ℕ, String, Bool, true, false, ◌≡◌, refl, [], ◌∷◌, map, Option, some, none,
}
use pj_clusterintent.Prelude.Digits.{in_base}
use pj_clusterintent.Prelude.Result.{Result, ok}
use pj_clusterintent.Prelude.Text.{lower}
use pj_clusterintent.Auth.{PeerCert, cert_authenticate, node_identity, node_urn_prefix}
use pj_clusterintent.Auth.NodeResolver.{ResolverError}
use pj_clusterintent.Ledger
use pj_clusterintent.Ledger.{Ledger}
use pj_clusterintent.Ca.{
  Csr, Draw, GeneralName, Signed, SignedCert, Usage, build_ca, sign_leaf, sign_node_cert, wrap,
}
use pj_clusterintent.Ca.Enrolment.{
  IsGetpeercert, enrolled_node_is_admitted, shown_name, sign_node_cert_lem,
}
use pj_clusterintent.Ca.Serial.{bytes_hex, capital_digit, lower-bytes_hex, serial_number_to_hex}

abbrev public : ℕ → String
public key = "public"

abbrev fingerprint : String → String
fingerprint key = "f0"

-- The texts that are UUIDs here: one, in capitals or not.
abbrev uuid : String → Option String
uuid text = some "c0ffee"

abbrev ip : String → Option String
ip text = some text

abbrev draw : Draw
draw = record { now = 1000000; random_serial_number = 2748 }

abbrev ca_signed : SignedCert ℕ String
ca_signed = build_ca public fingerprint uuid 7 draw "ca" 1825

abbrev csr : Csr String
csr = record { is_signature_valid = true; public_key = "node key" }

abbrev node_signed : SignedCert ℕ String
node_signed = wrap public fingerprint uuid (
    sign_leaf public fingerprint uuid 7 ca_signed.certificate "node key" "node"
      (GeneralName.uri (String.◌++◌ node_urn_prefix "c0ffee") ∷ []) 365 (Usage.client_auth ∷ [])
      none none draw)

signs :
    sign_node_cert public fingerprint uuid 7 ca_signed.certificate csr "C0FFEE" "node" 365 draw
    ≡ ok node_signed
unfolding sign_node_cert
signs = refl

abbrev present : Signed ℕ String → PeerCert
present cert = record {
  serial_number = some (bytes_hex capital_digit cert.serial_number);
  subject_alt_name = map shown_name cert.subject_alt_name;
}

present-IsGetpeercert : IsGetpeercert present
present-IsGetpeercert = record { serial = λ cert. refl; names = λ cert. refl }

abbrev shown_error : ResolverError → String
shown_error e = "error"

abbrev all_valid : String → Result ResolverError Bool
all_valid uuid = ok true

enrolled_node_is_admitted_example :
    cert_authenticate shown_error all_valid
      (Ledger.register 5 "c0ffee" node_signed.serial_hex "f0" "2030" []).1
      (some (present node_signed.certificate))
    ≡ ok (node_identity "c0ffee" node_signed.serial_hex)
enrolled_node_is_admitted_example =
    enrolled_node_is_admitted public fingerprint uuid 7 ca_signed.certificate csr "C0FFEE" "node"
      365 draw present present-IsGetpeercert shown_error all_valid node_signed "c0ffee" "f0" "2030"
      5 [] signs refl refl

lower-bytes_hex_example : lower (bytes_hex capital_digit 2748) ≡ serial_number_to_hex 2748
lower-bytes_hex_example = lower-bytes_hex 2748

sign_node_cert_lem_example :
    (true ≡ true)
    × ((canonical : String) × (uuid "C0FFEE" ≡ some canonical)
        × (node_signed.certificate.subject_alt_name
            ≡ GeneralName.uri (String.◌++◌ node_urn_prefix canonical) ∷ []))
    × (node_signed.certificate.extended_key_usage ≡ Usage.client_auth ∷ [])
    × (node_signed.certificate.is_ca ≡ false)
    × (node_signed.certificate.public_key ≡ "node key")
    × (node_signed.certificate.signed_by ≡ 7)
sign_node_cert_lem_example =
    sign_node_cert_lem public fingerprint uuid 7 ca_signed.certificate csr "C0FFEE" "node" 365 draw
      node_signed signs

serial_text : serial_number_to_hex 2748 ≡ "0abc"
unfolding serial_number_to_hex in_base
serial_text = refl
