-- ===== src/Ca/CommandLaws.antt =====
-- What the commands of `cagent-ca` leave of the files, and that a CA that was made can be used.
use text.Mathlib.TextLemmas.{append_cancel_left}
use pj_clusterintent.Prelude.{
  ℕ, String, Bool, true, false, Option, some, ◌≡◌, ◌≢◌, refl, ap, ◌∙◌, is_some, ◌||◌, ◌&&◌, not,
  Bool-cases, inl, inr,
}
use pj_clusterintent.Prelude.Dict.{get, put, get-put_self, get-put_ne}
use pj_clusterintent.Prelude.Result.{Result, ok, err, ok_inj}
use mathlib.Core.Path.{subst}
use pj_clusterintent.Ca.{Signed, SignedCert, Draw, build_ca}
use pj_clusterintent.Ca.Commands.{
  Pem, CommandError, Files, ca_key_path, ca_cert_path, load_ca, cmd_init, cmd_sign_node,
  signed_node, then_write,
}

module _ {Key PublicKey : Type 0} (public : Key → PublicKey) (fingerprint : PublicKey → String)
    (uuid ip : String → Option String) where
  -- Without `--force`, a CA that is there, or half of one, is never overwritten: the command exits and no
  -- file is touched.
  pub cmd_init_refuses :
      (dir cn : String) (days : ℕ) (key : Key) (draw : Draw)
      (files : Files public fingerprint uuid ip)
      → (is_some (get (ca_key_path dir) files) || is_some (get (ca_cert_path dir) files)) ≡ true
      → cmd_init public fingerprint uuid ip dir cn days false key draw files
        ≡ (err (CommandError.exits "CA already exists"), files)
  unfolding cmd_init
  cmd_init_refuses dir cn days key draw files h = rw h refl

  paths_differ : (dir : String) → ca_cert_path dir ≢ ca_key_path dir
  paths_differ dir e = cc (append_cancel_left dir "/ca_cert.pem" "/ca_key.pem" e)

  load_ca_found :
      (dir : String) (key : Key) (cert : Signed Key PublicKey)
      (files : Files public fingerprint uuid ip)
      → get (ca_key_path dir) files ≡ some (Pem.key_pem key)
      → get (ca_cert_path dir) files ≡ some (Pem.cert_pem cert)
      → load_ca public fingerprint uuid ip dir files ≡ ok (key, cert)
  unfolding load_ca
  load_ca_found dir key cert files h k = rw (h, k) refl

  -- What `cmd_init` writes.
  load_ca_written :
      (dir : String) (key : Key) (cert : Signed Key PublicKey)
      (files : Files public fingerprint uuid ip)
      → load_ca public fingerprint uuid ip dir (
          put
            (ca_cert_path dir)
            (Pem.cert_pem cert)
            (put (ca_key_path dir) (Pem.key_pem key) files))
        ≡ ok (key, cert)
  load_ca_written dir key cert files =
      let with_key = put (ca_key_path dir) (Pem.key_pem key) files in
      load_ca_found dir key cert (put (ca_cert_path dir) (Pem.cert_pem cert) with_key)
        (get-put_ne (ca_key_path dir) (ca_cert_path dir) (Pem.cert_pem cert) with_key
            (paths_differ dir)
          ∙ get-put_self (ca_key_path dir) (Pem.key_pem key) files)
        (get-put_self (ca_cert_path dir) (Pem.cert_pem cert) with_key)

  -- A CA that `cagent-ca init` makes is the one that the signing commands then load, key and certificate.
  pub load_ca-cmd_init :
      (dir cn : String) (days : ℕ) (force : Bool) (key : Key) (draw : Draw)
      (files after : Files public fingerprint uuid ip) (signed : SignedCert Key PublicKey)
      → cmd_init public fingerprint uuid ip dir cn days force key draw files ≡ (ok signed, after)
      → load_ca public fingerprint uuid ip dir after ≡ ok (key, signed.certificate)
  unfolding cmd_init
  load_ca-cmd_init dir cn days force key draw files after signed h =
      elim (Bool-cases (
        (is_some (get (ca_key_path dir) files) || is_some (get (ca_cert_path dir) files))
        && not force)) [
          | inl e ↦ cc (rw e at h)
          | inr e ↦
              let made = rw e at h in
              subst (λ a. load_ca public fingerprint uuid ip dir a ≡ ok (key, signed.certificate))
                (ap (λ m. m.1) made)
                (load_ca_written dir key
                    (build_ca public fingerprint uuid key draw cn days).certificate files
                  ∙ ap (λ s. ok (key, s.certificate)) (ok_inj (ap (λ m. m.0) made)))
        ]

  then_write_keeps :
      {A : Type 0} (r : Result CommandError A) (write : A → Files public fingerprint uuid ip)
      (files : Files public fingerprint uuid ip) (path : String)
      → ((a : A) → get path (write a) ≡ get path files)
      → get path (then_write public fingerprint uuid ip r write files).1 ≡ get path files
  then_write_keeps (ok a) write files path h = h a
  then_write_keeps (err e) write files path h = refl

  -- Signing a node changes one file at most, the one that it was told to write.
  pub cmd_sign_node_keeps_others :
      (ca_dir csr_path node_uuid cn out : String) (days : ℕ) (draw : Draw)
      (files : Files public fingerprint uuid ip) (path : String)
      → out ≢ path
      → get path
          (cmd_sign_node public fingerprint uuid ip ca_dir csr_path node_uuid cn out days draw
            files).1
        ≡ get path files
  unfolding cmd_sign_node
  cmd_sign_node_keeps_others ca_dir csr_path node_uuid cn out days draw files path other =
      then_write_keeps
        (signed_node public fingerprint uuid ip ca_dir csr_path node_uuid cn days draw files)
        (λ signed. put out (Pem.cert_pem signed.certificate) files) files path
        (λ signed. get-put_ne path out (Pem.cert_pem signed.certificate) files other)
