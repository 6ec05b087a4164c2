-- ===== src/Start/Clients.antt =====
-- src/auth.rs and src/tls.rs, as the constructors of the scraper, the forwarder and the sink use them:
-- the header, and then the HTTP client.
use ferrometer.Prelude.{ℕ, ◌++◌, Option, none, some}
use ferrometer.Prelude.Text.{Text, codes}
use ferrometer.Error.{Error, Result, ok, err, Foreign, map_err, ◌>>=◌}
use ferrometer.Config.Security.{AuthConfig, TlsConfig}
use ferrometer.Auth
use ferrometer.Auth.{Reply, returned, panicked, resolve_header}
use ferrometer.Tls.{Reqwest, configure}

-- `builder()`, `timeout` and `build()` of reqwest, whose client is a `K`, behind the operations that
-- the two modules use.
pub record Http (C I B K : Type 0) : Type 0 where
  pub auth : Auth.Outside
  pub reqwest : Reqwest C I B
  pub read : Text → Foreign Text
  pub builder : B
  pub timeout : ℕ → B → B
  pub build : B → Foreign K

-- `?` behind an `await` that may panic.
abbrev pub and_then : {V W : Type 0} → Reply V → (V → Reply W) → Reply W
and_then panicked rest = panicked
and_then (returned (ok v)) rest = rest v
and_then (returned (err e)) rest = returned (err e)

module _ {C I B K : Type 0} (h : Http C I B K) where
  abbrev timed : Option ℕ → B → B
  timed none builder = builder
  timed (some t) builder = h.timeout t builder

  unfoldable pub client_of : (Text → Error) → Option ℕ → TlsConfig → Result K
  unfolding configure codes
  client_of kind limit tls = do
    builder ← configure h.reqwest h.read h.builder tls
    map_err (λ e. kind (codes "failed to create HTTP client: " ++ e))
        (h.build (timed limit builder))

  unfoldable pub connect :
      (Text → Error) → Option ℕ → AuthConfig → TlsConfig → Reply (Option Text × K)
  unfolding resolve_header client_of
  connect kind limit auth tls =
      and_then (resolve_header h.auth auth)
        (λ header. returned (client_of kind limit tls >>= λ client. ok (header, client)))
