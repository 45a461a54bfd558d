-- ===== src/Auth/Laws.antt =====
-- What an accepted call proves of its caller, and how trust is taken away.
use Prim.Native.String
use pj_clusterintent.Prelude.{
  ℕ, String, ◌≡◌, refl, ◌≢◌, ◌↔◌, Bool, true, false, Option, none, some, List, [], ◌∷◌, reverse,
  arith, str_eq, eq_iff, eq_refl, if◌then◌else◌, Among, inl, inr, some_inj, Bool-cases,
  Option-cases, ap, ◌∙◌, sym,
}
use mathlib.Core.Bool.{false≢true}
use pj_clusterintent.Prelude.Result.{Result, ok, err, succeeds}
use pj_clusterintent.Prelude.Text.{strip_prefix, strip_prefix_iff, lower}
use pj_clusterintent.Ledger
use pj_clusterintent.Ledger.{Ledger, is_active, entry_is_active}
use pj_clusterintent.Ledger.Changes.{revoke_takes_effect}
use pj_clusterintent.Ledger.Standing.{is_trusted, is_active-eq-is_trusted}
use pj_clusterintent.Store.Owner.{Identity}
use pj_clusterintent.Auth.NodeResolver.{ResolverError, or_blank}
use pj_clusterintent.Auth.{
  forbidden, PeerCert, node_urn_prefix, node_identity, human_identity, find_node_uuid,
  extract_node_identity, admit_node, cert_authenticate, token_authenticate, is_ascii,
}

pair_eq : {a b c d : String} → a ≡ b → c ≡ d → ◌≡◌ {A = String × String} (a, c) (b, d)
pair_eq p q = λ i. (p i, q i)

find_node_uuid_sound :
    (names : List (String × String)) (uuid : String)
    → find_node_uuid names ≡ some uuid
    → Among ("URI", String.◌++◌ node_urn_prefix uuid) names
unfolding find_node_uuid
find_node_uuid_sound [] uuid h = cc
find_node_uuid_sound ((san_type, value) ∷ names) uuid h =
    elim (Bool-cases (str_eq san_type "URI")) [
      | inl uri ↦ elim (Option-cases (strip_prefix node_urn_prefix value)) [
        | inl other ↦ inr (find_node_uuid_sound names uuid (ground arith))
        | inr (found, stripped) ↦
            let same : found ≡ uuid = ground arith in
            inl (
              pair_eq (sym ((eq_iff san_type "URI").0 uri))
                (sym ((strip_prefix_iff node_urn_prefix value uuid).0 (stripped ∙ ap some same))))
      ]
      | inr other ↦ inr (find_node_uuid_sound names uuid (ground arith))
    ]

extract_node_identity_ok :
    (cert : PeerCert) (node_uuid cert_serial : String)
    → extract_node_identity (some cert) ≡ ok (node_uuid, cert_serial)
    → (serial : String) × (cert.serial_number ≡ some serial)
      × (find_node_uuid cert.subject_alt_name ≡ some node_uuid)
      × (cert_serial ≡ lower serial)
unfolding extract_node_identity
extract_node_identity_ok cert node_uuid cert_serial h = elim (Option-cases cert.serial_number) [
  | inl missing ↦ ground arith
  | inr (serial, numbered) ↦ (serial, numbered, ground arith, ground arith)
]

extract_node_identity_complete :
    (cert : PeerCert) (serial node_uuid : String)
    → cert.serial_number ≡ some serial
    → str_eq serial "" ≡ false
    → find_node_uuid cert.subject_alt_name ≡ some node_uuid
    → extract_node_identity (some cert) ≡ ok (node_uuid, lower serial)
unfolding extract_node_identity
extract_node_identity_complete cert serial node_uuid numbered some_serial named =
    rw (extract_node_identity, numbered, some_serial, named) refl

-- What the node listener has checked of the caller whom it takes for `identity`.
pub record IsAdmitted (is_valid : String → Result ResolverError Bool) (ledger : Ledger)
    (peercert : Option PeerCert) (identity : Identity) : Type 0 where
  pub cert : PeerCert
  pub presented : peercert ≡ some cert
  pub serial : String
  pub numbered : cert.serial_number ≡ some serial
  pub node_uuid : String
  pub named : Among ("URI", String.◌++◌ node_urn_prefix node_uuid) cert.subject_alt_name
  pub trusted : is_trusted (lower serial) (reverse ledger) ≡ true
  pub desired : is_valid node_uuid ≡ ok true
  pub known_as : identity ≡ node_identity node_uuid (lower serial)

module _ (shown : ResolverError → String) (is_valid : String → Result ResolverError Bool)
    (ledger : Ledger) where
  after_extraction_ok :
      (node_uuid cert_serial : String) (identity : Identity)
      → (if entry_is_active (Ledger.get cert_serial ledger)
          then admit_node shown (is_valid node_uuid) (node_identity node_uuid cert_serial)
          else err (forbidden "certificate not registered or revoked"))
        ≡ ok identity
      → (is_active cert_serial ledger ≡ true)
        × (is_valid node_uuid ≡ ok true)
        × (identity ≡ node_identity node_uuid cert_serial)
  unfolding is_active admit_node
  after_extraction_ok node_uuid cert_serial identity h = ground arith

  -- A caller whom the node listener accepts has presented a certificate that names its node, whose
  -- serial the ledger trusts, and whose node is valid now; the identity says just that.
  pub cert_authenticate_sound :
      (peercert : Option PeerCert) (identity : Identity)
      → cert_authenticate shown is_valid ledger peercert ≡ ok identity
      → IsAdmitted is_valid ledger peercert identity
  unfolding cert_authenticate
  cert_authenticate_sound none identity h = cc
  cert_authenticate_sound (some cert) identity h =
      let ((node_uuid, cert_serial), extracted, admitted) =
        succeeds _ (extract_node_identity (some cert)) h in
      let (serial, numbered, found, lowered) =
        extract_node_identity_ok cert node_uuid cert_serial extracted in
      let (active, desired, known_as) =
        after_extraction_ok node_uuid cert_serial identity admitted in
      record {
        cert = cert;
        presented = refl;
        serial = serial;
        numbered = numbered;
        node_uuid = node_uuid;
        named = find_node_uuid_sound cert.subject_alt_name node_uuid found;
        trusted =
            sym (is_active-eq-is_trusted (lower serial) ledger)
            ∙ ap (λ x. is_active x ledger) (sym lowered)
            ∙ active;
        desired = desired;
        known_as = known_as ∙ ap (node_identity node_uuid) lowered;
      }

  -- The other direction: a certificate that names a valid node and whose serial is active lets it in.
  pub cert_authenticate_complete :
      (cert : PeerCert) (serial node_uuid : String)
      → cert.serial_number ≡ some serial
      → str_eq serial "" ≡ false
      → find_node_uuid cert.subject_alt_name ≡ some node_uuid
      → is_active (lower serial) ledger ≡ true
      → is_valid node_uuid ≡ ok true
      → cert_authenticate shown is_valid ledger (some cert)
        ≡ ok (node_identity node_uuid (lower serial))
  unfolding cert_authenticate is_active admit_node
  cert_authenticate_complete cert serial node_uuid numbered some_serial named active desired =
      rw (extract_node_identity_complete cert serial node_uuid numbered some_serial named)
        (rw (active, desired) refl)

-- Once the serial of a certificate is revoked, the certificate is refused, whatever Nautobot says.
pub revoked_is_refused :
    (shown : ResolverError → String) (is_valid : String → Result ResolverError Bool)
    (ledger : Ledger) (now : ℕ) (cert : PeerCert) (serial : String) (identity : Identity)
    → cert.serial_number ≡ some serial
    → cert_authenticate shown is_valid (Ledger.revoke now (lower serial) ledger).1 (some cert)
      ≢ ok identity
revoked_is_refused shown is_valid ledger now cert serial identity numbered h =
    let after = (Ledger.revoke now (lower serial) ledger).1 in
    let a = cert_authenticate_sound shown is_valid after (some cert) identity h in
    let same : a.serial ≡ serial =
      some_inj
        (sym a.numbered ∙ ap (λ c. c.serial_number) (sym (some_inj a.presented)) ∙ numbered) in
    let active : is_active (lower serial) after ≡ true =
      ap (λ x. is_active (lower x) after) (sym same)
      ∙ is_active-eq-is_trusted (lower a.serial) after
      ∙ a.trusted in
    false≢true (sym (revoke_takes_effect now (lower serial) ledger).0 ∙ active)

-- The human listener accepts exactly the header `Bearer <token>`, of a token in ASCII, and knows one operator.
pub token_authenticate_iff :
    (token human_name : String) (header : Option String) (identity : Identity)
    → (token_authenticate token human_name header ≡ ok identity) ↔ (
        (or_blank header ≡ String.◌++◌ "Bearer " token)
        × (human_identity human_name ≡ identity)
        × (is_ascii token ≡ true))
unfolding token_authenticate
token_authenticate_iff token human_name header identity = (to, from)
  where
    provided :
        (r : String)
        → strip_prefix "Bearer " (or_blank header) ≡ some r
        → or_blank header ≡ String.◌++◌ "Bearer " r
    provided r e = (strip_prefix_iff "Bearer " (or_blank header) r).0 e

    to :
        token_authenticate token human_name header ≡ ok identity
        → (or_blank header ≡ String.◌++◌ "Bearer " token)
          × (human_identity human_name ≡ identity)
          × (is_ascii token ≡ true)
    to h = elim (Option-cases (strip_prefix "Bearer " (or_blank header))) [
      | inl missing ↦ ground arith
      | inr (r, found) ↦ elim (Bool-cases (is_ascii token)) [
        | inl plain ↦ ground (arith, provided r found, eq_iff r token)
        | inr foreign ↦ elim (Bool-cases (is_ascii r)) [
          | inl a ↦ cc (rw (token_authenticate, found, a, foreign) at h)
          | inr a ↦ cc (rw (token_authenticate, found, a) at h)
        ]
      ]
    ]

    from :
        (or_blank header ≡ String.◌++◌ "Bearer " token)
          × (human_identity human_name ≡ identity)
          × (is_ascii token ≡ true)
        → token_authenticate token human_name header ≡ ok identity
    from (e, known, plain) =
        rw ((strip_prefix_iff "Bearer " (or_blank header) token).1 e, token_authenticate, plain)
          (rw (eq_refl token) (ap ok known))
