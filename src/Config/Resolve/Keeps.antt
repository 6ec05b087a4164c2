-- ===== src/Config/Resolve/Keeps.antt =====
-- src/config.rs: the expansion of placeholders keeps a configuration valid.
use ferrometer.Prelude.{◌≡◌, ◌≢◌, ◌↔◌, refl, sym, ap, subst, [], ◌∷◌, Option, none, some, All}
use ferrometer.Prelude.Text.{Text}
use ferrometer.Prelude.Maps.{Map}
use ferrometer.Error.{Result, ok, err, ◌>>=◌, bind-ok}
use ferrometer.Config.Placeholders.{Environment, expand_placeholders, expand_path}
use ferrometer.Config.Security.{AuthConfig, TlsConfig, resolve_auth, resolve_tls, update}
use ferrometer.Config.Security.Methods.{
  Method, no_auth, basic, basic_file, bearer, bearer_file, header, config_of, HasMethod,
}
use ferrometer.Config.Types.{
  LogSinkConfig, loki, ShipperConfig, CollectorConfig, unix, prometheus, ForwarderConfig, otlphttp,
  Config,
}
use ferrometer.Config.Validate.{Regexes, validate}
use ferrometer.Config.Validate.Sound.{
  IsIdentity, IsSecured, IsCollector, IsForwarder, IsSink, IsShipper, IsConfig, validate-IsConfig,
}
use ferrometer.Config.Resolve.{
  over_values, resolve_collector, resolve_forwarder, resolve_sink, resolve_source, resolve_shipper,
  resolve_placeholders, load_unresolved, load,
}

ok_or {ℓ} : {A : Type ℓ} → A → Result A → A
ok_or d (ok a) = a
ok_or d (err e) = d

ok-inj {ℓ} : {A : Type ℓ} {a b : A} → ok a ≡ ok b → a ≡ b
unfolding ok_or
ok-inj {a = a} h = ap (ok_or a) h

abbrev set : Text → Result (Option Text)
set t = ok (some t)

one :
    (r : Result Text) (k : Option Text → AuthConfig) {d : AuthConfig}
    → ((t : Text) → HasMethod (k (some t)))
    → ((r >>= set) >>= λ t. ok (k t)) ≡ ok d
    → HasMethod d
one (ok t) k m h = subst HasMethod (ok-inj h) (m t)
one (err e) k m h = absurd cc

two :
    (r s : Result Text) (k : Option Text → Option Text → AuthConfig) {d : AuthConfig}
    → ((t u : Text) → HasMethod (k (some t) (some u)))
    → ((r >>= set) >>= λ t. (s >>= set) >>= λ u. ok (k t u)) ≡ ok d
    → HasMethod d
two (ok t) s k m h = one s (k (some t)) (m t) h
two (err e) s k m h = absurd cc

config_of-resolve :
    (env : Environment) (name : Text) (m : Method) {d : AuthConfig}
    → resolve_auth (config_of m) env name ≡ ok d
    → HasMethod d
unfolding config_of HasMethod resolve_auth
config_of-resolve env name no_auth h = (no_auth, ok-inj h)
config_of-resolve env name (basic u p) h =
    two (expand_placeholders env name u) (expand_placeholders env name p) _
      (λ t w. (basic t w, refl)) h
config_of-resolve env name (basic_file u f) h =
    two (expand_placeholders env name u) (expand_path env name f) _ (λ t w. (basic_file t w, refl))
      h
config_of-resolve env name (bearer t) h =
    one (expand_placeholders env name t) _ (λ u. (bearer u, refl)) h
config_of-resolve env name (bearer_file f) h =
    one (expand_path env name f) _ (λ u. (bearer_file u, refl)) h
config_of-resolve env name (header v) h =
    one (expand_placeholders env name v) _ (λ u. (header u, refl)) h

resolve_auth-HasMethod :
    (env : Environment) (name : Text) (c : AuthConfig) {d : AuthConfig}
    → resolve_auth c env name ≡ ok d
    → HasMethod c
    → HasMethod d
unfolding HasMethod
resolve_auth-HasMethod env name c {d} h (m, e) =
    config_of-resolve env name m (subst (λ k. resolve_auth k env name ≡ ok d) (sym e) h)

update-none :
    (f : Text → Result Text) (o : Option Text) {q : Option Text}
    → update f o ≡ ok q
    → (o ≡ none) ↔ (q ≡ none)
update-none f none h = (λ _. sym (ok-inj h), λ _. refl)
update-none f (some s) h = go (f s) h
  where
    go :
        (r : Result Text) {q : Option Text}
        → (r >>= λ t. ok (some t)) ≡ ok q
        → (some s ≡ none) ↔ (q ≡ none)
    go (ok t) {q} h = (λ e. absurd cc, λ e. absurd cc)
    go (err e) h = absurd cc

resolve_tls-IsIdentity :
    (env : Environment) (name : Text) (c : TlsConfig) {d : TlsConfig}
    → resolve_tls c env name ≡ ok d
    → IsIdentity c
    → IsIdentity d
unfolding resolve_tls
resolve_tls-IsIdentity env name c h identity =
    let (cert, e, h1) = bind-ok (update (expand_path env name) c.client_cert_file) _ h in
    let (key, e', h2) = bind-ok (update (expand_path env name) c.client_key_file) _ h1 in
    let (ca, e'', h3) = bind-ok (update (expand_path env name) c.ca_cert_file) _ h2 in
    subst IsIdentity (ok-inj h3) λ no_cert.
      (update-none (expand_path env name) c.client_key_file e').0
        (identity ((update-none (expand_path env name) c.client_cert_file e).1 no_cert))

module _ {A : Type 0} (P Q : A → Type 0) (f : A → Result A)
    (keep : (a b : A) → f a ≡ ok b → P a → Q b) where
  over_values-All :
      (m : Map Text A) {n : Map Text A}
      → over_values f m ≡ ok n
      → All (λ kv. P kv.1) m
      → All (λ kv. Q kv.1) n
  unfolding over_values
  over_values-All [] h all = subst (λ n. All (λ kv. Q kv.1) n) (ok-inj h) tt
  over_values-All ((k, v) ∷ m) h (p, ps) =
      let (w, e, h1) = bind-ok (f v) _ h in
      let (n, e', h2) = bind-ok (over_values f m) _ h1 in
      subst (λ n. All (λ kv. Q kv.1) n) (ok-inj h2) (keep v w e p, over_values-All m e' ps)

over_values-not_empty :
    {A : Type 0} (f : A → Result A) (m : Map Text A) {n : Map Text A}
    → over_values f m ≡ ok n
    → m ≢ []
    → n ≢ []
unfolding over_values
over_values-not_empty f [] h nonempty e = absurd (nonempty refl)
over_values-not_empty f ((k, v) ∷ m) h nonempty e =
    let (w, e', h1) = bind-ok (f v) _ h in
    let (n, e'', h2) = bind-ok (over_values f m) _ h1 in let r = ok-inj h2 in absurd cc

-- What the settings of a client come to, whatever record they stand in.
IsSecured-keeps :
    {B : Type 0} (env : Environment) (name : Text) (auth : AuthConfig) (tls : TlsConfig)
    (k : AuthConfig → TlsConfig → Result B) {b : B}
    → (resolve_auth auth env name >>= λ a. resolve_tls tls env name >>= λ t. k a t) ≡ ok b
    → IsSecured auth tls
    → (a : AuthConfig) × (t : TlsConfig) × IsSecured a t × (k a t ≡ ok b)
IsSecured-keeps env name auth tls k h (method, identity) =
    let (a, e, h1) = bind-ok (resolve_auth auth env name) _ h in
    let (t, e', h2) = bind-ok (resolve_tls tls env name) _ h1 in
    (
      a,
      t,
      (
        resolve_auth-HasMethod env name auth e method,
        resolve_tls-IsIdentity env name tls e' identity,
      ),
      h2,
    )

IsCollector-keeps :
    (regex : Regexes) (env : Environment) (name : Text) (c d : CollectorConfig)
    → resolve_collector env name c ≡ ok d
    → IsCollector regex c
    → IsCollector regex d
IsCollector-keeps regex env name (unix c) d h valid = subst (IsCollector regex) (ok-inj h) valid
IsCollector-keeps regex env name (prometheus c) d h (url, secured) =
    let (a, t, secured', h') = IsSecured-keeps env name c.auth c.tls _ h secured in
    subst (IsCollector regex) (ok-inj h') (url, secured')

IsForwarder-keeps :
    (env : Environment) (name : Text) (c d : ForwarderConfig)
    → resolve_forwarder env name c ≡ ok d
    → IsForwarder c
    → IsForwarder d
IsForwarder-keeps env name (otlphttp c) d h (endpoint, (method, (identity, bounds))) =
    let (a, t, (method', identity'), h') =
      IsSecured-keeps env name c.auth c.tls _ h (method, identity) in
    let (attributes, e, h2) = bind-ok (over_values _ c.resource_attributes) _ h' in
    subst IsForwarder (ok-inj h2) (endpoint, (method', (identity', bounds)))

IsSink-keeps :
    (env : Environment) (name : Text) (c d : LogSinkConfig)
    → resolve_sink env name c ≡ ok d
    → IsSink c
    → IsSink d
IsSink-keeps env name (loki c) d h secured =
    let (a, t, secured', h') = IsSecured-keeps env name c.auth c.tls _ h secured in
    subst IsSink (ok-inj h') secured'

IsShipper-keeps :
    (env : Environment) (name : Text) (c d : ShipperConfig)
    → resolve_shipper env name c ≡ ok d
    → IsShipper c
    → IsShipper d
IsShipper-keeps env name c d h (backoffs, sink) =
    let (source, e, h1) = bind-ok (resolve_source env name c.source) _ h in
    let (sink', e', h2) = bind-ok (resolve_sink env name c.sink) _ h1 in
    subst IsShipper (ok-inj h2) (backoffs, IsSink-keeps env name c.sink sink' e' sink)

resolve_placeholders-IsConfig :
    (regex : Regexes) (env : Environment) (c d : Config)
    → resolve_placeholders env c ≡ ok d
    → IsConfig regex c
    → IsConfig regex d
unfolding resolve_placeholders
resolve_placeholders-IsConfig regex env c d h
      (name, (some_cs, (some_fs, (all_cs, (all_fs, all_ss))))) =
    let n = c.instance_config.name in
    let (cs, e, h1) = bind-ok (over_values (resolve_collector env n) c.metrics.collectors) _ h in
    let (fs, e', h2) = bind-ok (over_values (resolve_forwarder env n) c.metrics.forwarders) _ h1 in
    let (ss, e'', h3) = bind-ok (over_values (resolve_shipper env n) c.logs.shippers) _ h2 in
    subst (IsConfig regex) (ok-inj h3) (
      name,
      (
        over_values-not_empty (resolve_collector env n) c.metrics.collectors e some_cs,
        (
          over_values-not_empty (resolve_forwarder env n) c.metrics.forwarders e' some_fs,
          (
            over_values-All _ _ (resolve_collector env n) (IsCollector-keeps regex env n)
                c.metrics.collectors e all_cs,
            (
              over_values-All _ _ (resolve_forwarder env n) (IsForwarder-keeps env n)
                  c.metrics.forwarders e' all_fs,
              over_values-All _ _ (resolve_shipper env n) (IsShipper-keeps env n) c.logs.shippers
                  e'' all_ss,
            ),
          ),
        ),
      ),
    )

-- What `load` returns, with all placeholders expanded, is a valid configuration: the validation,
-- which runs before the expansion, accepts it as well behind it.
pub load-validates :
    (regex : Regexes) (env : Environment) (parsed : Result Config) (d : Config)
    → load regex env parsed ≡ ok d
    → validate regex d ≡ ok tt
unfolding load load_unresolved
load-validates regex env parsed d h =
    let (c, e, h1) = bind-ok (load_unresolved regex parsed) _ h in
    let (c', e', h2) = bind-ok parsed _ e in
    let (u, e'', h3) = bind-ok (validate regex c') _ h2 in
    let same = ok-inj h3 in
    (validate-IsConfig regex d).1 (
      resolve_placeholders-IsConfig regex env c d h1
        (subst (IsConfig regex) same ((validate-IsConfig regex c').0 e'')))
