-- ===== src/Ca/Commands.antt =====
-- cagent/src/cagent_api/ca_cli.py: the commands of `cagent-ca`. The files are their paths with what their
-- PEM text holds; a SystemExit, like any exception, ends the command with the files as they are then.
use Prim.Native.String
use pj_clusterintent.Prelude.{
  ℕ, String, Bool, Option, some, List, ◌&&◌, ◌||◌, not, is_some, if◌then◌else◌,
}
use pj_clusterintent.Prelude.Dict.{Dict, get, put}
use pj_clusterintent.Prelude.Result.{Result, ok, err, ◌>>=◌}
use pj_clusterintent.Ca.Serial.{serial_number_to_hex}
use pj_clusterintent.Ca.{
  CaError, Signed, SignedCert, Csr, Draw, build_ca, sign_server_cert, sign_node_cert,
}

pub data Pem (Key PublicKey : Type 0) : Type 0 where
  key_pem : Key → Pem Key PublicKey
  cert_pem : Signed Key PublicKey → Pem Key PublicKey
  csr_pem : Csr PublicKey → Pem Key PublicKey

pub data CommandError : Type 0 where
  -- SystemExit, with its first words
  exits : String → CommandError
  ca : CaError → CommandError
  -- a file that is missing or is not what it should be
  unreadable : String → CommandError

abbrev pub ca_key_path : String → String
ca_key_path dir = String.◌++◌ dir "/ca_key.pem"

abbrev pub ca_cert_path : String → String
ca_cert_path dir = String.◌++◌ dir "/ca_cert.pem"

module _ {Key PublicKey : Type 0} (public : Key → PublicKey) (fingerprint : PublicKey → String)
    (uuid ip : String → Option String) where
  abbrev pub Files : Type 0
  Files = Dict (Pem Key PublicKey)

  -- `load_key_pem` and its kin on what `read_bytes` gives
  abbrev pub as_key : String → Option (Pem Key PublicKey) → Result CommandError Key
  as_key path (some (Pem.key_pem key)) = ok key
  as_key path _ = err (CommandError.unreadable path)

  abbrev pub as_cert :
      String → Option (Pem Key PublicKey) → Result CommandError (Signed Key PublicKey)
  as_cert path (some (Pem.cert_pem cert)) = ok cert
  as_cert path _ = err (CommandError.unreadable path)

  abbrev pub as_csr : String → Option (Pem Key PublicKey) → Result CommandError (Csr PublicKey)
  as_csr path (some (Pem.csr_pem csr)) = ok csr
  as_csr path _ = err (CommandError.unreadable path)

  abbrev as_command : {A : Type 0} → Result CaError A → Result CommandError A
  as_command (ok a) = ok a
  as_command (err e) = err (CommandError.ca e)

  unfoldable pub load_ca :
      (ca_dir : String) → Files → Result CommandError (Key × Signed Key PublicKey)
  load_ca ca_dir files =
      if not (is_some (get (ca_key_path ca_dir) files))
        || not (is_some (get (ca_cert_path ca_dir) files))
      then err (CommandError.exits "no CA found")
      else (do
        key ← as_key (ca_key_path ca_dir) (get (ca_key_path ca_dir) files)
        cert ← as_cert (ca_cert_path ca_dir) (get (ca_cert_path ca_dir) files)
        ok (key, cert))

  -- `generate_key` gives the key.
  unfoldable pub cmd_init :
      (dir cn : String) (days : ℕ) (force : Bool) (key : Key)
      → Draw
      → Files
      → Result CommandError (SignedCert Key PublicKey) × Files
  unfolding build_ca
  cmd_init dir cn days force key draw files =
      if (is_some (get (ca_key_path dir) files) || is_some (get (ca_cert_path dir) files))
        && not force
      then (err (CommandError.exits "CA already exists"), files)
      else (let signed = build_ca public fingerprint uuid key draw cn days in
          (
            ok signed,
            put (ca_cert_path dir) (Pem.cert_pem signed.certificate)
                (put (ca_key_path dir) (Pem.key_pem key) files),
          ))

  -- What a command writes when its chain of calls succeeds.
  abbrev pub then_write :
      {A : Type 0} → Result CommandError A → (A → Files) → Files → Result CommandError A × Files
  then_write (err e) write files = (err e, files)
  then_write (ok a) write files = (ok a, write a)

  unfoldable pub signed_server :
      (ca_dir cn : String) (dns ips : List String) (days : ℕ) (key : Key)
      → Draw
      → Files
      → Result CommandError (SignedCert Key PublicKey)
  unfolding load_ca sign_server_cert
  signed_server ca_dir cn dns ips days key draw files = do
    (ca_key, ca_cert) ← load_ca ca_dir files
    as_command (sign_server_cert public fingerprint uuid ip ca_key ca_cert key cn dns ips days draw)

  unfoldable pub cmd_sign_server :
      (ca_dir out_key out_cert cn : String) (dns ips : List String) (days : ℕ) (key : Key)
      → Draw
      → Files
      → Result CommandError (SignedCert Key PublicKey) × Files
  unfolding signed_server
  cmd_sign_server ca_dir out_key out_cert cn dns ips days key draw files =
      then_write (signed_server ca_dir cn dns ips days key draw files)
        (λ signed.
          put out_cert (Pem.cert_pem signed.certificate) (put out_key (Pem.key_pem key) files))
        files

  unfoldable pub signed_node :
      (ca_dir csr_path node_uuid cn : String) (days : ℕ)
      → Draw
      → Files
      → Result CommandError (SignedCert Key PublicKey)
  unfolding load_ca sign_node_cert
  signed_node ca_dir csr_path node_uuid cn days draw files = do
    (ca_key, ca_cert) ← load_ca ca_dir files
    csr ← as_csr csr_path (get csr_path files)
    as_command (sign_node_cert public fingerprint uuid ca_key ca_cert csr node_uuid cn days draw)

  unfoldable pub cmd_sign_node :
      (ca_dir csr_path node_uuid cn out : String) (days : ℕ)
      → Draw
      → Files
      → Result CommandError (SignedCert Key PublicKey) × Files
  unfolding signed_node
  cmd_sign_node ca_dir csr_path node_uuid cn out days draw files =
      then_write (signed_node ca_dir csr_path node_uuid cn days draw files)
        (λ signed. put out (Pem.cert_pem signed.certificate) files) files

  -- The fields that `show-ca` prints.
  unfoldable pub cmd_show_ca :
      (ca_dir : String) → Files → Result CommandError (String × String × ℕ × ℕ)
  unfolding load_ca serial_number_to_hex
  cmd_show_ca ca_dir files = do
    (ca_key, ca_cert) ← load_ca ca_dir files
    ok (
      ca_cert.subject_cn,
      serial_number_to_hex ca_cert.serial_number,
      ca_cert.not_before,
      ca_cert.not_after,
    )
