-- ===== src/Ca/Main.antt =====
-- build_parser and main of cagent/src/cagent_api/ca_cli.py: the commands with their defaults, and what they print.
-- An option that is not given is `none`; `shown` prints a time, and `generate_key` has given `key`.
use Prim.Native.String
use pj_clusterintent.Prelude.{ℕ, String, Bool, Option, none, some, List, [], ◌∷◌}
use pj_clusterintent.Prelude.Result.{Result, ok, err}
use pj_clusterintent.Incident.{joined}
use pj_clusterintent.Ca.{Draw, SignedCert}
use pj_clusterintent.Ca.Commands.{
  CommandError, Files, cmd_init, cmd_sign_server, cmd_sign_node, cmd_show_ca,
}

pub data Arguments : Type 0 where
  init : (dir cn : Option String) → (days : Option ℕ) → (force : Bool) → Arguments
  sign_server :
      (ca_dir : Option String)
      → (out_key out_cert : String) → (cn : Option String) → (dns ips : Option (List String))
      → (days : Option ℕ) → Arguments
  sign_node :
      (ca_dir : Option String)
      → (csr uuid : String) → (cn : Option String) → (out : String) → (days : Option ℕ) → Arguments
  show_ca : (ca_dir : Option String) → Arguments

-- `default=` of an option, and `args.dns or []` of one that may be repeated.
abbrev pub or_default {ℓ} : {A : Type ℓ} → A → Option A → A
or_default default none = default
or_default default (some value) = value

module _ {Key PublicKey : Type 0} (public : Key → PublicKey) (fingerprint : PublicKey → String)
    (uuid ip : String → Option String) (shown : ℕ → String) (default_dir : String) where
  abbrev signed_line : SignedCert Key PublicKey → String
  signed_line signed =
      joined ("  serial=" ∷ signed.serial_hex ∷ " not_after=" ∷ shown signed.not_after ∷ [])

  unfoldable pub init_lines : (dir : String) → SignedCert Key PublicKey → List String
  init_lines dir signed = String.◌++◌ "CA created at " dir ∷ signed_line signed ∷ []

  unfoldable pub sign_server_lines :
      (out_key out_cert : String) → SignedCert Key PublicKey → List String
  sign_server_lines out_key out_cert signed =
      joined ("server cert written to " ∷ out_cert ∷ " (key: " ∷ out_key ∷ ")" ∷ [])
      ∷ signed_line signed
      ∷ []

  -- The lines end with the command that registers the certificate. The source takes the fingerprint of the
  -- CSR's key, which is the key of the certificate.
  unfoldable pub sign_node_lines : (out node_uuid : String) → SignedCert Key PublicKey → List String
  sign_node_lines out node_uuid signed =
      let print = fingerprint signed.certificate.public_key in
      let until = shown signed.not_after in
      String.◌++◌ "node cert written to " out
      ∷ String.◌++◌ "  uuid=" node_uuid
      ∷ String.◌++◌ "  serial=" signed.serial_hex
      ∷ String.◌++◌ "  fingerprint=" print
      ∷ String.◌++◌ "  not_after=" until
      ∷ "Register this in the ledger:"
      ∷ joined (
          "  uv run --project cagent cagent-ledger register --uuid " ∷ node_uuid ∷ " --serial "
          ∷ signed.serial_hex ∷ " --fingerprint " ∷ print ∷ " --not-after " ∷ until ∷ [])
      ∷ []

  unfoldable pub show_ca_lines : String × String × ℕ × ℕ → List String
  show_ca_lines (subject, serial, not_before, not_after) =
      String.◌++◌ "subject=" subject
      ∷ String.◌++◌ "serial=" serial
      ∷ String.◌++◌ "not_before=" (shown not_before)
      ∷ String.◌++◌ "not_after=" (shown not_after)
      ∷ []

  abbrev pub printing :
      {A : Type 0}
      → (A → List String)
      → Result CommandError A × Files public fingerprint uuid ip
      → Result CommandError (List String) × Files public fingerprint uuid ip
  printing lines (err e, files) = (err e, files)
  printing lines (ok a, files) = (ok (lines a), files)

  unfoldable pub main :
      Key
      → Draw
      → Arguments
      → Files public fingerprint uuid ip
      → Result CommandError (List String) × Files public fingerprint uuid ip
  unfolding cmd_init cmd_sign_server cmd_sign_node cmd_show_ca
  main key draw (Arguments.init dir cn days force) files =
      printing (init_lines (or_default default_dir dir)) (
        cmd_init public fingerprint uuid ip (or_default default_dir dir)
          (or_default "cagent-local-ca" cn) (or_default 1825 days) force key draw files)
  main key draw (Arguments.sign_server ca_dir out_key out_cert cn dns ips days) files =
      printing (sign_server_lines out_key out_cert) (
        cmd_sign_server public fingerprint uuid ip (or_default default_dir ca_dir) out_key out_cert
          (or_default "cagent-api" cn) (or_default [] dns) (or_default [] ips) (or_default 365 days)
          key draw files)
  main key draw (Arguments.sign_node ca_dir csr node_uuid cn out days) files =
      printing (sign_node_lines out node_uuid) (
        cmd_sign_node public fingerprint uuid ip (or_default default_dir ca_dir) csr node_uuid
          (or_default "cagent-node" cn) out (or_default 365 days) draw files)
  main key draw (Arguments.show_ca ca_dir) files =
      printing show_ca_lines
        (cmd_show_ca public fingerprint uuid ip (or_default default_dir ca_dir) files, files)
