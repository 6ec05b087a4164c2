-- ===== src/Tls/Tests.antt =====
-- src/tls.rs: an identity of two files.
use ferrometer.Prelude.{◌≡◌, refl, ◌++◌, List, [], ◌∷◌, none, some, true, false, if◌then◌else◌}
use ferrometer.Prelude.Text.{Text, codes, text_eq, cmp_text}
use ferrometer.Error.{◌>>=◌, ok, Foreign, done, failed}
use ferrometer.Config.Security.{TlsConfig}
use ferrometer.Tls.{Reqwest, path_eq, with_ca, identified, configure}
use ferrometer.Tls.Identity.{lines, configure-identity}

-- A builder that keeps what it is given.
abbrev kept : Reqwest Text Text (List Text)
kept = record {
  from_pem_bundle = λ pem. done (pem ∷ []);
  add_root_certificate = λ b cert. cert ∷ b;
  from_pem = λ pem. done pem;
  identity = λ b pem. pem ∷ b;
}

abbrev files : Text → Foreign Text
files path =
    if text_eq path (codes "/c")
    then done (codes "CERT")
    else if text_eq path (codes "/k")
    then done (codes "KEY")
    else failed (codes "gone")

abbrev two_files : TlsConfig
two_files = record {
  client_cert_file = some (codes "/c");
  client_key_file = some (codes "/k");
  ca_cert_file = none;
}

joined : configure kept files [] two_files ≡ ok (codes "CERT\nKEY" ∷ [])
unfolding configure codes text_eq cmp_text
joined = refl

differ : path_eq (codes "/k") (codes "/c") ≡ false
unfolding path_eq codes cmp_text
differ = refl

same_path : path_eq (codes "/etc//./c") (codes "/etc/c/") ≡ true
unfolding path_eq codes cmp_text
same_path = refl

configure-identity_example :
    (pem : Text) × (lines pem ≡ lines (codes "CERT") ++ lines (codes "KEY"))
    × (configure kept files [] two_files
        ≡ (with_ca kept files none [] >>= λ rooted. identified kept files (codes "/c") rooted pem))
unfolding codes text_eq
configure-identity_example =
    configure-identity kept files [] two_files (codes "/c") (codes "/k") b'C' (codes "ERT")
      (codes "KEY") refl refl differ refl refl
