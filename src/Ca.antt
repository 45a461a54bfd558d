-- ===== src/Ca.antt =====
-- cagent/src/cagent_api/ca.py: the certificates that the local CA makes. Keys and the signature check of a
-- CSR are the cryptography library's: keys are a type, with the public key and its fingerprint; a
-- certificate is the fields that the builder sets, with the key that signed it. Times are seconds.
pub mod Serial
pub mod Commands
pub mod Main
pub mod Enrolment
pub mod CommandLaws
use Prim.Native.String
use pj_clusterintent.Prelude.{
  ℕ, String, Bool, true, false, ◌+◌, ◌-◌, ◌*◌, Option, none, some, List, [], ◌∷◌, ◌++◌, map,
  if◌then◌else◌,
}
use pj_clusterintent.Prelude.Result.{Result, ok, err, ◌>>=◌}
use pj_clusterintent.Prelude.Text.{strip_prefix}
use pj_clusterintent.Auth.{node_urn_prefix}
use pj_clusterintent.Ca.Serial.{serial_number_to_hex}

pub data CaError : Type 0 where
  ca_error : String → CaError
  -- ValueError, of `uuid.UUID` or of `ipaddress.ip_address`
  value_error : String → CaError

pub data GeneralName : Type 0 where
  dns_name : String → GeneralName
  ip_address : String → GeneralName
  uri : String → GeneralName

pub data Usage : Type 0 where
  server_auth client_auth : Usage

pub record Signed (Key PublicKey : Type 0) : Type 0 where
  pub subject_cn : String
  pub issuer_cn : String
  pub public_key : PublicKey
  pub serial_number : ℕ
  pub not_before : ℕ
  pub not_after : ℕ
  pub is_ca : Bool
  pub path_length : Option ℕ
  pub extended_key_usage : List Usage
  pub subject_alt_name : List GeneralName
  pub signed_by : Key

pub record Csr (PublicKey : Type 0) : Type 0 where
  pub is_signature_valid : Bool
  pub public_key : PublicKey

pub record SignedCert (Key PublicKey : Type 0) : Type 0 where
  pub certificate : Signed Key PublicKey
  pub serial_hex : String
  pub fingerprint_hex : String
  pub not_before : ℕ
  pub not_after : ℕ

-- What the signing reads of the clock and of the random source.
pub record Draw : Type 0 where
  pub now : ℕ
  pub random_serial_number : ℕ

-- The canonical text of a UUID, `none` for a ValueError.
abbrev pub uuid_of : (uuid : String → Option String) → String → Result CaError String
uuid_of uuid text = elim (uuid text) [
  | none ↦ err (CaError.value_error text)
  | some canonical ↦ ok canonical
]

unfoldable pub node_uuid_to_san_uri :
    (uuid : String → Option String) → String → Result CaError String
node_uuid_to_san_uri uuid node_uuid = do
  canonical ← uuid_of uuid node_uuid
  ok (String.◌++◌ node_urn_prefix canonical)

unfoldable pub san_uri_to_node_uuid :
    (uuid : String → Option String) → String → Result CaError String
unfolding strip_prefix
san_uri_to_node_uuid uuid san_uri = elim (strip_prefix node_urn_prefix san_uri) [
  | none ↦ err (CaError.ca_error "not a clusterintent node URI SAN")
  | some rest ↦ uuid_of uuid rest
]

abbrev or_time : Option ℕ → ℕ → ℕ
or_time none default = default
or_time (some time) default = time

-- The list comprehension over `ip_sans`; `ip` is the canonical text of an address.
unfoldable pub ip_entries :
    (ip : String → Option String) → List String → Result CaError (List GeneralName)
ip_entries ip [] = ok []
ip_entries ip (text ∷ texts) = elim (ip text) [
  | none ↦ err (CaError.value_error text)
  | some address ↦ (do entries ← ip_entries ip texts; ok (GeneralName.ip_address address ∷ entries))
]

module _ {Key PublicKey : Type 0} (public : Key → PublicKey) (fingerprint : PublicKey → String)
    (uuid : String → Option String) where
  unfoldable pub wrap : Signed Key PublicKey → SignedCert Key PublicKey
  unfolding serial_number_to_hex
  wrap cert = record {
    certificate = cert;
    serial_hex = serial_number_to_hex cert.serial_number;
    fingerprint_hex = fingerprint cert.public_key;
    not_before = cert.not_before;
    not_after = cert.not_after;
  }

  -- `days` of `timedelta` and five minutes, in seconds.
  abbrev pub after_days : ℕ → ℕ → ℕ
  after_days now days = now + days * 86400

  abbrev pub five_minutes_before : ℕ → ℕ
  five_minutes_before now = now - 300

  unfoldable pub build_ca : Key → Draw → (cn : String) → (valid_days : ℕ) → SignedCert Key PublicKey
  unfolding wrap
  build_ca key draw cn valid_days = wrap (record {
    subject_cn = cn;
    issuer_cn = cn;
    public_key = public key;
    serial_number = draw.random_serial_number;
    not_before = five_minutes_before draw.now;
    not_after = after_days draw.now valid_days;
    is_ca = true;
    path_length = some 0;
    extended_key_usage = [];
    subject_alt_name = [];
    signed_by = key;
  })

  unfoldable pub sign_leaf :
      (ca_key : Key) (ca_cert : Signed Key PublicKey) (public_key : PublicKey) (cn : String)
      (san_entries : List GeneralName) (valid_days : ℕ) (extended_key_usage : List Usage)
      (not_before not_after : Option ℕ)
      → Draw
      → Signed Key PublicKey
  sign_leaf ca_key ca_cert public_key cn san_entries valid_days usages not_before not_after draw =
      record {
        subject_cn = cn;
        issuer_cn = ca_cert.subject_cn;
        public_key = public_key;
        serial_number = draw.random_serial_number;
        not_before = or_time not_before (five_minutes_before draw.now);
        not_after = or_time not_after (after_days draw.now valid_days);
        is_ca = false;
        path_length = none;
        extended_key_usage = usages;
        subject_alt_name = san_entries;
        signed_by = ca_key;
      }

  unfoldable pub sign_node_cert :
      (ca_key : Key) (ca_cert : Signed Key PublicKey)
      → Csr PublicKey
      → (node_uuid cn : String) (valid_days : ℕ) → Draw
      → Result CaError (SignedCert Key PublicKey)
  unfolding node_uuid_to_san_uri sign_leaf wrap
  sign_node_cert ca_key ca_cert csr node_uuid cn valid_days draw =
      if csr.is_signature_valid
      then (do
        san ← node_uuid_to_san_uri uuid node_uuid
        ok (
            wrap (
              sign_leaf ca_key ca_cert csr.public_key cn (GeneralName.uri san ∷ []) valid_days
                (Usage.client_auth ∷ []) none none draw)))
      else err (CaError.ca_error "CSR signature does not verify against its own public key")

  unfoldable pub sign_server_cert :
      (ip : String → Option String) (ca_key : Key) (ca_cert : Signed Key PublicKey) (key : Key)
      (cn : String) (dns_sans ip_sans : List String) (valid_days : ℕ)
      → Draw
      → Result CaError (SignedCert Key PublicKey)
  unfolding ip_entries sign_leaf wrap
  sign_server_cert ip ca_key ca_cert key cn dns_sans ip_sans valid_days draw = do
    addresses ← ip_entries ip ip_sans
    ok (
        wrap (
          sign_leaf ca_key ca_cert (public key) cn (map GeneralName.dns_name dns_sans ++ addresses)
            valid_days (Usage.server_auth ∷ []) none none draw))

  unfoldable pub sign_node_cert_for_test :
      (ca_key : Key) (ca_cert : Signed Key PublicKey) (key : Key) (node_uuid : Option String)
      (cn : String) (valid_days : ℕ) (not_before not_after : Option ℕ)
      → Draw
      → Result CaError (SignedCert Key PublicKey)
  unfolding node_uuid_to_san_uri sign_leaf wrap
  sign_node_cert_for_test ca_key ca_cert key node_uuid cn valid_days not_before not_after draw = do
    san_entries ← elim node_uuid [
      | none ↦ ok []
      | some text ↦ (do san ← node_uuid_to_san_uri uuid text; ok (GeneralName.uri san ∷ []))
    ]
    ok (
        wrap (
          sign_leaf ca_key ca_cert (public key) cn san_entries valid_days (Usage.client_auth ∷ [])
            not_before not_after draw))
