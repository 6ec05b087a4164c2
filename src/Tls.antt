-- ===== src/Tls.antt =====
-- src/tls.rs: the settings for TLS, applied to the builder of an HTTP client. The files, and what
-- reqwest makes of them, are arguments; a file's content is the list of its bytes.
pub mod Identity
mod Tests
use ferrometer.Prelude.{
  ℕ, ◌++◌, List, [], ◌∷◌, Option, none, some, Bool, true, false, not, ◌&&◌, ◌==◌, if◌then◌else◌,
}
use ferrometer.Prelude.Text.{Text, codes, text_eq}
use ferrometer.Prelude.Text.Split.{split}
use ferrometer.Prelude.Maps.{text_ord, labels_ord, is, cmp_labels}
use ferrometer.Error.{Error, config, file_read, Result, ok, err, ◌>>=◌, Foreign, map_err}
use ferrometer.Config.Security.{TlsConfig}
use ferrometer.Collector.Filesystem.{components}

-- What the code uses of reqwest: certificates `C`, identities `I`, and the builder `B`.
pub record Reqwest (C I B : Type 0) : Type 0 where
  pub from_pem_bundle : Text → Foreign (List C)
  pub add_root_certificate : B → C → B
  pub from_pem : Text → Foreign I
  pub identity : B → I → B

abbrev same_test : Bool → Bool → Bool
same_test true b = b
same_test false b = not b

abbrev first_is : (Text → Bool) → List Text → Bool
first_is p [] = false
first_is p (t ∷ ts) = p t

abbrev is_rooted : Text → Bool
is_rooted [] = false
is_rooted (c ∷ p) = c == b'/'

-- The equality of two paths is that of their components: a root, a leading `.`, and names.
unfoldable pub path_eq : Text → Text → Bool
unfolding components cmp_labels split text_eq
path_eq p q =
    same_test (is_rooted p) (is_rooted q)
    && (same_test (first_is (λ t. text_eq t (b'.' ∷ [])) (split p b'/'))
          (first_is (λ t. text_eq t (b'.' ∷ [])) (split q b'/'))
        && is (components p) (components q))

-- `pem.ends_with(b"\n")`
unfoldable pub ends_with_newline : Text → Bool
ends_with_newline [] = false
ends_with_newline (c ∷ []) = c == b'\n'
ends_with_newline (c ∷ d ∷ s) = ends_with_newline (d ∷ s)

-- The certificate and the key in one buffer.
unfoldable pub combined : Text → Text → Text
unfolding ends_with_newline
combined cert key = (if ends_with_newline cert then cert else cert ++ b'\n' ∷ []) ++ key

module _ {C I B : Type 0} (r : Reqwest C I B) (read : Text → Foreign Text) where
  unfoldable pub read_pem : Text → Result Text
  read_pem path = map_err (file_read path) (read path)

  unfoldable pub add_roots : List C → B → B
  add_roots [] builder = builder
  add_roots (cert ∷ certs) builder = add_roots certs (r.add_root_certificate builder cert)

  unfoldable pub with_ca : Option Text → B → Result B
  unfolding read_pem add_roots codes
  with_ca none builder = ok builder
  with_ca (some ca_path) builder = do
    pem ← read_pem ca_path
    certs ←
        map_err
          (λ e. config (codes "ca-cert-file " ++ (ca_path ++ (codes ": parse failed: " ++ e))))
          (r.from_pem_bundle pem)
    ok (add_roots certs builder)

  -- The key may stand in the same file.
  unfoldable pub identity_pem : Text → Option Text → Text → Result Text
  unfolding read_pem combined path_eq
  identity_pem cert_path none cert_pem = ok cert_pem
  identity_pem cert_path (some key_path) cert_pem =
      if not (path_eq key_path cert_path)
      then (read_pem key_path >>= λ key_pem. ok (combined cert_pem key_pem))
      else ok cert_pem

  -- The builder with the identity that the buffer holds.
  unfoldable pub identified : Text → B → Text → Result B
  unfolding codes
  identified cert_path builder pem = do
    identity ←
        map_err
          (λ e. config (
            codes "client-cert-file "
            ++ (cert_path ++ (codes ": identity build failed (key missing or invalid?): " ++ e))))
          (r.from_pem pem)
    ok (r.identity builder identity)

  unfoldable pub with_identity : Option Text → Option Text → B → Result B
  unfolding read_pem identity_pem identified
  with_identity none key_file builder = ok builder
  with_identity (some cert_path) key_file builder = do
    cert_pem ← read_pem cert_path
    pem ← identity_pem cert_path key_file cert_pem
    identified cert_path builder pem

  unfoldable pub configure : B → TlsConfig → Result B
  unfolding with_ca with_identity
  configure builder cfg = with_ca cfg.ca_cert_file builder >>= λ rooted.
      with_identity cfg.client_cert_file cfg.client_key_file rooted
