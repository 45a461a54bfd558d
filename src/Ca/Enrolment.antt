-- ===== src/Ca/Enrolment.antt =====
-- From a signed CSR to a caller that the node listener accepts. `present` is what Python's `ssl` gives of a
-- certificate on a connection.
use Prim.Native.String
use pj_clusterintent.Prelude.{
  ℕ, String, Bool, true, false, Option, none, some, [], ◌∷◌, map, ◌≡◌, refl, sym, ap, ◌∙◌, inl, inr,
  Bool-cases, Option-cases,
}
use pj_clusterintent.Prelude.Result.{Result, ok, ◌>>=◌, ok_inj}
use pj_clusterintent.Prelude.Text.{strip_prefix_iff, lower}
use pj_clusterintent.Ledger
use pj_clusterintent.Ledger.{Ledger, is_active, entry_is_active}
use pj_clusterintent.Auth.{
  PeerCert, node_urn_prefix, node_identity, find_node_uuid, cert_authenticate,
}
use pj_clusterintent.Auth.NodeResolver.{ResolverError}
use pj_clusterintent.Ca.{
  uuid_of, GeneralName, Usage, Signed, SignedCert, Csr, Draw, node_uuid_to_san_uri,
  san_uri_to_node_uuid, sign_node_cert, sign_leaf, wrap,
}
use pj_clusterintent.Ca.Serial.{bytes_hex, capital_digit, lower-bytes_hex, bytes_hex-not_empty}
use mathlib.Core.Path.{subst}
use pj_clusterintent.Auth.Laws.{cert_authenticate_complete}
use pj_clusterintent.Ledger.Changes.{register_takes_effect}

abbrev pub shown_name : GeneralName → String × String
shown_name (GeneralName.dns_name name) = ("DNS", name)
shown_name (GeneralName.ip_address address) = ("IP Address", address)
shown_name (GeneralName.uri name) = ("URI", name)

-- `getpeercert`: the serial number's bytes in capital hexadecimal digits, and the names.
pub record IsGetpeercert {Key PublicKey : Type 0} (present : Signed Key PublicKey → PeerCert)
    : Type 0 where
  pub serial :
      (cert : Signed Key PublicKey)
      → (present cert).serial_number ≡ some (bytes_hex capital_digit cert.serial_number)
  pub names :
      (cert : Signed Key PublicKey)
      → (present cert).subject_alt_name ≡ map shown_name cert.subject_alt_name

named_node :
    (node_uuid : String)
    → find_node_uuid (map shown_name (GeneralName.uri (String.◌++◌ node_urn_prefix node_uuid) ∷ []))
      ≡ some node_uuid
unfolding find_node_uuid
named_node node_uuid =
    rw ((strip_prefix_iff node_urn_prefix (String.◌++◌ node_urn_prefix node_uuid) node_uuid).1 refl)
      refl

-- The URI that a node's certificate carries reads back as the node's canonical UUID.
pub san_uri_round_trip :
    (uuid : String → Option String) (node_uuid canonical : String)
    → uuid node_uuid ≡ some canonical
    → uuid canonical ≡ some canonical
    → (node_uuid_to_san_uri uuid node_uuid >>= san_uri_to_node_uuid uuid) ≡ ok canonical
unfolding node_uuid_to_san_uri san_uri_to_node_uuid
san_uri_round_trip uuid node_uuid canonical h k =
    rw (◌>>=◌, h)
      (rw
        (
          san_uri_to_node_uuid,
          (strip_prefix_iff node_urn_prefix (String.◌++◌ node_urn_prefix canonical) canonical).1
              refl,
          uuid_of,
          k,
        )
        refl)

module _ {Key PublicKey : Type 0} (public : Key → PublicKey) (fingerprint : PublicKey → String)
    (uuid : String → Option String) (ca_key : Key) (ca_cert : Signed Key PublicKey)
    (csr : Csr PublicKey) (node_uuid cn : String) (valid_days : ℕ) (draw : Draw) where
  node_cert : String → SignedCert Key PublicKey
  node_cert canonical = wrap public fingerprint uuid (
      sign_leaf public fingerprint uuid ca_key ca_cert csr.public_key cn
        (GeneralName.uri (String.◌++◌ node_urn_prefix canonical) ∷ []) valid_days
        (Usage.client_auth ∷ []) none none draw)

  sign_node_cert_inv :
      (signed : SignedCert Key PublicKey)
      → sign_node_cert public fingerprint uuid ca_key ca_cert csr node_uuid cn valid_days draw
        ≡ ok signed
      → (csr.is_signature_valid ≡ true)
        × ((canonical : String) × (uuid node_uuid ≡ some canonical)
            × (node_cert canonical ≡ signed))
  unfolding sign_node_cert node_cert
  sign_node_cert_inv signed h = elim (Bool-cases csr.is_signature_valid) [
    | inl valid ↦ elim (Option-cases (uuid node_uuid)) [
      | inl bad ↦ cc (rw (valid, ◌>>=◌, bad) at h)
      | inr (canonical, good) ↦ (valid, (canonical, good, ok_inj (rw (valid, ◌>>=◌, good) at h)))
    ]
    | inr invalid ↦ cc (rw invalid at h)
  ]

  signed_serial :
      (signed : SignedCert Key PublicKey)
      → sign_node_cert public fingerprint uuid ca_key ca_cert csr node_uuid cn valid_days draw
        ≡ ok signed
      → lower (bytes_hex capital_digit signed.certificate.serial_number) ≡ signed.serial_hex
  unfolding node_cert wrap sign_leaf
  signed_serial signed h =
      let (_, (canonical, _, same)) = sign_node_cert_inv signed h in
      subst (λ s. lower (bytes_hex capital_digit s.certificate.serial_number) ≡ s.serial_hex) same
        (lower-bytes_hex draw.random_serial_number)

  -- `sign_node_cert` signs a CSR only if its signature verifies and the given UUID is one. The certificate
  -- names that node and no other, is for a client, is no CA's, and holds the CSR's key.
  pub sign_node_cert_lem :
      (signed : SignedCert Key PublicKey)
      → sign_node_cert public fingerprint uuid ca_key ca_cert csr node_uuid cn valid_days draw
        ≡ ok signed
      → (csr.is_signature_valid ≡ true)
        × ((canonical : String) × (uuid node_uuid ≡ some canonical)
            × (signed.certificate.subject_alt_name
                ≡ GeneralName.uri (String.◌++◌ node_urn_prefix canonical) ∷ []))
        × (signed.certificate.extended_key_usage ≡ Usage.client_auth ∷ [])
        × (signed.certificate.is_ca ≡ false)
        × (signed.certificate.public_key ≡ csr.public_key)
        × (signed.certificate.signed_by ≡ ca_key)
  unfolding node_cert wrap sign_leaf
  sign_node_cert_lem signed h =
      let (valid, (canonical, good, same)) = sign_node_cert_inv signed h in
      (
        valid,
        (canonical, good, ap (λ s. s.certificate.subject_alt_name) (sym same)),
        ap (λ s. s.certificate.extended_key_usage) (sym same),
        ap (λ s. s.certificate.is_ca) (sym same),
        ap (λ s. s.certificate.public_key) (sym same),
        ap (λ s. s.certificate.signed_by) (sym same),
      )

  module _ (present : Signed Key PublicKey → PeerCert) (ssl : IsGetpeercert present)
      (shown : ResolverError → String) (is_valid : String → Result ResolverError Bool) where
    -- The certificate that was signed for a node, once it is registered under the serial number that the
    -- signing gave, lets that node in, under its own UUID: whatever the ledger held before, as long as
    -- Nautobot knows the node.
    pub enrolled_node_is_admitted :
        (signed : SignedCert Key PublicKey) (canonical fingerprint_text not_after : String)
        (registered_at : ℕ) (ledger : Ledger)
        → sign_node_cert public fingerprint uuid ca_key ca_cert csr node_uuid cn valid_days draw
          ≡ ok signed
        → uuid node_uuid ≡ some canonical
        → is_valid canonical ≡ ok true
        → cert_authenticate shown is_valid
            (Ledger.register registered_at canonical signed.serial_hex fingerprint_text not_after
              ledger).1
            (some (present signed.certificate))
          ≡ ok (node_identity canonical signed.serial_hex)
    enrolled_node_is_admitted signed canonical fingerprint_text not_after registered_at ledger h
          good desired =
        let (_, (found, good_too, named), _, _, _, _) = sign_node_cert_lem signed h in
        let serial = bytes_hex capital_digit signed.certificate.serial_number in
        subst
          (λ hex.
            cert_authenticate shown is_valid
              (Ledger.register registered_at canonical hex fingerprint_text not_after ledger).1
              (some (present signed.certificate))
            ≡ ok (node_identity canonical hex))
          (signed_serial signed h)
          (cert_authenticate_complete shown is_valid
            (Ledger.register registered_at canonical (lower serial) fingerprint_text not_after
              ledger).1
            (present signed.certificate) serial canonical (ssl.serial signed.certificate)
            (bytes_hex-not_empty capital_digit signed.certificate.serial_number)
            (ap find_node_uuid (ssl.names signed.certificate ∙ ap (map shown_name) named)
              ∙ named_node found
              ∙ sym good_too
              ∙ good)
            (register_takes_effect registered_at canonical (lower serial) fingerprint_text not_after
              ledger).0
            desired)
