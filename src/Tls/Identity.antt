-- ===== src/Tls/Identity.antt =====
-- src/tls.rs: the identity of a client whose certificate and key stand in two files.
use ferrometer.Prelude.{ℕ, ◌≡◌, refl, ◌++◌, List, [], ◌∷◌, some, false, ◌==◌, if◌then◌else◌, arith}
use ferrometer.Prelude.Text.{Text}
use ferrometer.Error.{◌>>=◌, Foreign, done}
use ferrometer.Config.Security.{TlsConfig}
use ferrometer.Tls.{
  Reqwest, path_eq, combined, read_pem, with_ca, identity_pem, identified, with_identity, configure,
}

abbrev onto_first : ℕ → List Text → List Text
onto_first c [] = (c ∷ []) ∷ []
onto_first c (l ∷ ls) = (c ∷ l) ∷ ls

-- The lines of a text. A newline at its end starts no further line.
pub lines : Text → List Text
lines [] = []
lines (c ∷ s) = if c == b'\n' then [] ∷ lines s else onto_first c (lines s)

onto_first-append :
    (c d : ℕ) (s : Text) (more : List Text)
    → onto_first c (lines (d ∷ s) ++ more) ≡ onto_first c (lines (d ∷ s)) ++ more
unfolding lines
onto_first-append c d s more = go (lines s)
  where
    go :
        (ls : List Text)
        → onto_first c ((if d == b'\n' then [] ∷ ls else onto_first d ls) ++ more)
          ≡ onto_first c (if d == b'\n' then [] ∷ ls else onto_first d ls) ++ more
    go [] = ground arith
    go (l ∷ ls) = ground arith

lines-combined : (c : ℕ) (s key : Text) → lines (combined (c ∷ s) key) ≡ lines (c ∷ s) ++ lines key
unfolding combined lines
lines-combined c [] key = ground arith
lines-combined c (d ∷ s) key =
    ground (arith, lines-combined d s key, onto_first-append c d s (lines key))

-- With a certificate and a key in two files that can be read, the first of which is not empty, and
-- whatever else is set: the identity is built from a buffer whose lines are those of the certificate
-- and then those of the key, so that the key starts on a line of its own whether or not the first
-- file ends with a newline. It goes to the builder behind the authorities, whose failure comes first.
pub configure-identity :
    {C I B : Type 0} (r : Reqwest C I B) (read : Text → Foreign Text) (builder : B)
    (cfg : TlsConfig) (cert_path key_path : Text) (c : ℕ) (cert key : Text)
    → cfg.client_cert_file ≡ some cert_path
    → cfg.client_key_file ≡ some key_path
    → path_eq key_path cert_path ≡ false
    → read cert_path ≡ done (c ∷ cert)
    → read key_path ≡ done key
    → (pem : Text) × (lines pem ≡ lines (c ∷ cert) ++ lines key)
      × (configure r read builder cfg ≡ (
          with_ca r read cfg.ca_cert_file builder >>= λ rooted.
          identified r read cert_path rooted pem))
unfolding configure with_identity identity_pem read_pem
configure-identity r read builder cfg cert_path key_path c cert key has_cert has_key differ reads
      reads_key =
    (
      combined (c ∷ cert) key,
      lines-combined c cert key,
      rw (has_cert, has_key, reads, differ, reads_key) refl,
    )
