-- ===== src/Config/Validate/Sound.antt =====
-- src/config.rs: which configurations the validation accepts.
use ferrometer.Prelude.{
  ℕ, ◌≤◌, ◌≡◌, ◌≢◌, ◌↔◌, refl, List, [], ◌∷◌, ◌++◌, Option, none, some, Bool, true, false, not,
  ◌&&◌, any, is_empty, is_some, ltb, ◌==◌, All, arith,
}
use ferrometer.Prelude.Text.{Text, codes, text_eq}
use ferrometer.Error.{Result, ok, ◌>>◌, seq_iff}
use ferrometer.Config.Security.{AuthConfig, TlsConfig, refuse_if, validate_auth, validate_tls}
use ferrometer.Config.Security.Methods.{HasMethod, validate_auth-HasMethod}
use ferrometer.Config.Types.{
  loki, LogSinkConfig, ShipperConfig, CollectorConfig, unix, prometheus, ForwarderConfig, otlphttp,
  Config,
}
use ferrometer.Config.Validate.{
  Regexes, check_regex, sub_collectors, each, check_sub_collector, validate_unix_collector,
  validate_prometheus_collector, validate_otlphttp_forwarder, validate_collector,
  validate_forwarder, validate_sink, validate_shipper, sink_name, validate,
}

-- A key without a certificate is no identity.
abbrev pub IsIdentity : TlsConfig → Type 0
IsIdentity c = c.client_cert_file ≡ none → c.client_key_file ≡ none

abbrev pub IsSecured : AuthConfig → TlsConfig → Type 0
IsSecured auth tls = HasMethod auth × IsIdentity tls

abbrev pub IsCollector : Regexes → CollectorConfig → Type 0
IsCollector regex (unix c) =
    (regex c.disk_devices ≡ none)
    × ((regex c.net_devices ≡ none)
        × ((regex c.filesystem_mount_points ≡ none)
            × ((regex c.filesystem_fs_types ≡ none)
                × ((regex c.hwmon_chips ≡ none)
                    × All (λ s. any (text_eq s) sub_collectors ≡ true) c.collectors))))
IsCollector regex (prometheus c) = (c.url ≢ []) × IsSecured c.auth c.tls

abbrev pub IsForwarder : ForwarderConfig → Type 0
IsForwarder (otlphttp c) =
    (c.endpoint ≢ [])
    × (HasMethod c.auth
        × (IsIdentity c.tls
            × ((1 ≤ c.buffer_max_metrics)
                × ((1 ≤ c.request_max_metrics) × (c.backoff_initial ≤ c.backoff_max)))))

abbrev pub IsSink : LogSinkConfig → Type 0
IsSink (loki c) = IsSecured c.auth c.tls

abbrev pub IsShipper : ShipperConfig → Type 0
IsShipper s = (s.backoff_initial ≤ s.backoff_max) × IsSink s.sink

abbrev pub IsConfig : Regexes → Config → Type 0
IsConfig regex c =
    (c.instance_config.name ≢ [])
    × ((c.metrics.collectors ≢ [])
        × ((c.metrics.forwarders ≢ [])
            × (All (λ kv. IsCollector regex kv.1) c.metrics.collectors
                × (All (λ kv. IsForwarder kv.1) c.metrics.forwarders
                    × All (λ kv. IsShipper kv.1) c.logs.shippers))))

each_iff :
    {A : Type 0} (P : A → Type 0) (f : A → Result (Unit {0}))
    → ((a : A) → (f a ≡ ok tt) ↔ P a)
    → (xs : List A) → (each f xs ≡ ok tt) ↔ All P xs
unfolding each
each_iff P f h [] = (λ _. tt, λ _. refl)
each_iff P f h (a ∷ xs) = seq_iff (h a) (each_iff P f h xs)

not_empty_iff :
    {A : Type 0} (xs : List A) (why : Text) → (refuse_if (is_empty xs) why ≡ ok tt) ↔ (xs ≢ [])
not_empty_iff [] why = (λ h. absurd cc, λ h. absurd (h refl))
not_empty_iff (a ∷ xs) why = (λ h e. absurd cc, λ h. refl)

positive_iff : (n : ℕ) (why : Text) → (refuse_if (n == 0) why ≡ ok tt) ↔ (1 ≤ n)
positive_iff n why = ground arith

ordered_iff : (a b : ℕ) (why : Text) → (refuse_if (ltb b a) why ≡ ok tt) ↔ (a ≤ b)
ordered_iff a b why = ground arith

known_iff : (b : Bool) (why : Text) → (refuse_if (not b) why ≡ ok tt) ↔ (b ≡ true)
known_iff true why = ground arith
known_iff false why = ground arith

regex_iff : (name field : Text) (o : Option Text) → (check_regex name field o ≡ ok tt) ↔ (o ≡ none)
regex_iff name field none = (λ _. refl, λ _. refl)
regex_iff name field (some e) = (λ h. absurd cc, λ h. absurd cc)

IsIdentity-iff : (c : TlsConfig) (ctx : Text) → (validate_tls c ctx ≡ ok tt) ↔ IsIdentity c
unfolding validate_tls
IsIdentity-iff c ctx = go c.client_cert_file c.client_key_file
  where
    go :
        (cert key : Option Text)
        → (refuse_if
              (is_some key && not (is_some cert))
              (ctx ++ codes ": client-key-file is set but client-cert-file is not")
            ≡ ok tt)
          ↔ (cert ≡ none → key ≡ none)
    go none none = (λ _ _. refl, λ _. refl)
    go none (some k) = (λ h. absurd cc, λ h. absurd (some≢none (h refl)))
      where
        some≢none : {k : Text} → some k ≡ none → ⊥
        some≢none e = cc
    go (some p) none = (λ _ _. refl, λ _. refl)
    go (some p) (some k) = (λ _ e. absurd cc, λ _. refl)

IsSecured-iff :
    (auth : AuthConfig) (tls : TlsConfig) (ctx : Text)
    → ((validate_auth auth ctx >> validate_tls tls ctx) ≡ ok tt) ↔ IsSecured auth tls
IsSecured-iff auth tls ctx = seq_iff (validate_auth-HasMethod auth ctx) (IsIdentity-iff tls ctx)

IsCollector-iff :
    (regex : Regexes) (kv : Text × CollectorConfig)
    → (validate_collector regex kv ≡ ok tt) ↔ IsCollector regex kv.1
unfolding validate_unix_collector validate_prometheus_collector
IsCollector-iff regex (name, unix c) = seq_iff (regex_iff name _ (regex c.disk_devices)) (
    seq_iff (regex_iff name _ (regex c.net_devices)) (
      seq_iff (regex_iff name _ (regex c.filesystem_mount_points)) (
        seq_iff (regex_iff name _ (regex c.filesystem_fs_types)) (
          seq_iff (regex_iff name _ (regex c.hwmon_chips)) (
            each_iff (λ s. any (text_eq s) sub_collectors ≡ true) (check_sub_collector name)
              (λ s. known_iff (any (text_eq s) sub_collectors) _) c.collectors)))))
IsCollector-iff regex (name, prometheus c) =
    seq_iff (not_empty_iff c.url _) (IsSecured-iff c.auth c.tls (codes "collector " ++ name))

IsForwarder-iff : (kv : Text × ForwarderConfig) → (validate_forwarder kv ≡ ok tt) ↔ IsForwarder kv.1
unfolding validate_otlphttp_forwarder
IsForwarder-iff (name, otlphttp c) = seq_iff (not_empty_iff c.endpoint _) (
    seq_iff (validate_auth-HasMethod c.auth (codes "forwarder " ++ name)) (
      seq_iff (IsIdentity-iff c.tls (codes "forwarder " ++ name)) (
        seq_iff (positive_iff c.buffer_max_metrics _) (
          seq_iff (positive_iff c.request_max_metrics _)
            (ordered_iff c.backoff_initial c.backoff_max _)))))

IsShipper-iff : (kv : Text × ShipperConfig) → (validate_shipper kv ≡ ok tt) ↔ IsShipper kv.1
IsShipper-iff (name, s) = seq_iff (ordered_iff s.backoff_initial s.backoff_max _) (sink s.sink)
  where
    sink : (k : LogSinkConfig) → (validate_sink name k ≡ ok tt) ↔ IsSink k
    sink (loki c) = IsSecured-iff c.auth c.tls (sink_name name)

-- The validation accepts a configuration just when: the instance has a name and there are a
-- collector and a forwarder; of each collector, the patterns are regular expressions and the
-- sub-collectors are known ones, or the URL is there and the settings for authorization and TLS
-- are in order; of each forwarder, the endpoint is there, these settings are in order, the buffer
-- and the request have room for at least one metric and the first backoff is no longer than the
-- longest; and of each shipper, the backoffs and the sink's settings are in order.
pub validate-IsConfig :
    (regex : Regexes) (c : Config) → (validate regex c ≡ ok tt) ↔ IsConfig regex c
unfolding validate
validate-IsConfig regex c = seq_iff (not_empty_iff c.instance_config.name _) (
    seq_iff (not_empty_iff c.metrics.collectors _) (
      seq_iff (not_empty_iff c.metrics.forwarders _) (
        seq_iff
          (each_iff (λ kv. IsCollector regex kv.1) (validate_collector regex)
            (IsCollector-iff regex) c.metrics.collectors)
          (seq_iff
            (each_iff (λ kv. IsForwarder kv.1) validate_forwarder IsForwarder-iff
              c.metrics.forwarders)
            (each_iff (λ kv. IsShipper kv.1) validate_shipper IsShipper-iff c.logs.shippers)))))
