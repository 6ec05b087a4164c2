-- ===== src/Start/Returned.antt =====
-- src/pipeline.rs, run, and src/main.rs, spawn_logs: no `unreachable!` is reached when the parts of a
-- loaded configuration are built, and each of them is built from its own section.
use ferrometer.Prelude.{
  ap, refl, ◌++◌, false, ℕ, ◌≡◌, subst, sym, List, [], ◌∷◌, Option, none, some, All,
}
use ferrometer.Prelude.Text.{Text}
use ferrometer.Error.{Error, collector, forwarder, sink, Result, ok, err, map_err, ◌>>=◌}
use ferrometer.Auth.{Reply, returned, resolve_header}
use ferrometer.Auth.Total.{header_of, resolve_header-returns}
use ferrometer.Config.Security.{AuthConfig, TlsConfig}
use ferrometer.Config.Security.Methods.{HasMethod, validate_auth-HasMethod}
use ferrometer.Config.Types.{
  CollectorConfig, unix, prometheus, ForwarderConfig, otlphttp, loki, LogSinkConfig, ShipperConfig,
  Config, LogSourceConfig, journald,
}
use ferrometer.Config.Placeholders.{Environment}
use ferrometer.Config.Resolve.{load}
use ferrometer.Config.Resolve.Keeps.{load-validates}
use ferrometer.Config.Validate.{Regexes}
use ferrometer.Config.Validate.Sound.{
  IsCollector, IsForwarder, IsSink, IsShipper, validate-IsConfig,
}
use ferrometer.Start.Clients.{and_then, connect}
use ferrometer.Log.Journald.Cursors.{read_saved_cursor}
use ferrometer.Pipeline.{Scheduled}
use ferrometer.Log.Shipper.{Shipper}
use ferrometer.Start.{
  Collector, Otlphttp, LokiSink, Journal, build_source, new_journald, Outside, new_prometheus,
  build_collector, new_otlphttp, build_forwarder, build_scheduled, build_each, build_pipeline,
  new_loki, build_sink, build_shipper, spawn_logs,
}

-- The call comes back, with an error or with a value that is right.
pub data IsReturned {A : Type 0} (P : A → Type 0) : Reply A → Type 0 where
  built : (a : A) → P a → IsReturned P (returned (ok a))
  refused : (e : Error) → IsReturned P (returned (err e))

and_then-IsReturned :
    {V W : Type 0} {P : V → Type 0} {Q : W → Type 0} (first : Reply V) (rest : V → Reply W)
    → IsReturned P first
    → ((v : V) → P v → IsReturned Q (rest v))
    → IsReturned Q (and_then first rest)
and_then-IsReturned first rest (built v p) k = k v p
and_then-IsReturned first rest (refused e) k = refused e

bind-IsReturned :
    {V W : Type 0} {P : W → Type 0} (m : Result V) (f : V → Result W)
    → ((v : V) → IsReturned P (returned (f v)))
    → IsReturned P (returned (m >>= f))
bind-IsReturned (ok v) f h = h v
bind-IsReturned (err e) f h = refused e

-- Each part is built from what stands at its place.
pub Matches : {A B : Type 0} → (A → B → Type 0) → List A → List B → Type 0
Matches P [] [] = Unit {0}
Matches P [] (b ∷ bs) = ⊥
Matches P (a ∷ xs) [] = ⊥
Matches P (a ∷ xs) (b ∷ bs) = P a b × Matches P xs bs

-- Either all of them are built, or the result is the error of the first that is refused.
pub data BuildsAll {A B : Type 0} (P : A → B → Type 0) (f : A → Reply B) (xs : List A)
    : Reply (List B) → Type 0 where
  all_built : (bs : List B) → Matches P xs bs → BuildsAll P f xs (returned (ok bs))
  first_refused :
      (front : List A) (a : A) (back : List A) (bs : List B) (e : Error)
      → xs ≡ front ++ a ∷ back
      → Matches P front bs
      → f a ≡ returned (err e)
      → BuildsAll P f xs (returned (err e))

build_each-BuildsAll :
    {A B : Type 0} (C : A → Type 0) (P : A → B → Type 0) (f : A → Reply B)
    → ((a : A) → C a → IsReturned (P a) (f a))
    → (xs : List A) → All C xs
    → BuildsAll P f xs (build_each f xs)
unfolding build_each Matches
build_each-BuildsAll C P f h [] all = all_built [] tt
build_each-BuildsAll {A = A} {B = B} C P f h (a ∷ xs) (c, all) =
    here (f a) refl (h a c) (build_each f xs) (build_each-BuildsAll C P f h xs all)
  where
    later :
        (b : B) (rest : Reply (List B))
        → P a b
        → BuildsAll P f xs rest
        → BuildsAll P f (a ∷ xs) (and_then rest (λ bs. returned (ok (b ∷ bs))))
    later b rest p (all_built bs m) = all_built (b ∷ bs) (p, m)
    later b rest p (first_refused front x back bs e split m r) =
        first_refused (a ∷ front) x back (b ∷ bs) e (ap (λ t. a ∷ t) split) (p, m) r

    here :
        (r : Reply B)
        → f a ≡ r
        → IsReturned (P a) r
        → (rest : Reply (List B)) → BuildsAll P f xs rest
        → BuildsAll P f (a ∷ xs) (and_then r (λ b. and_then rest (λ bs. returned (ok (b ∷ bs)))))
    here r same (built b p) rest k = later b rest p k
    here r same (refused e) rest k = first_refused [] a xs [] e refl tt same

-- What is built from each section of the configuration.
abbrev pub IsScheduled :
    {K : Type 0} → ℕ → Text × CollectorConfig → Scheduled × Collector K → Type 0
IsScheduled now (name, unix c) (s, part) = s ≡ record {
  name = name;
  interval = c.interval;
  max_runtime = c.max_runtime;
  next_run = now;
  active = false;
}
IsScheduled now (name, prometheus c) (s, part) = s ≡ record {
  name = name;
  interval = c.interval;
  max_runtime = c.max_runtime;
  next_run = now;
  active = false;
}

abbrev pub IsForwarding : {K : Type 0} → Text × ForwarderConfig → Otlphttp K → Type 0
IsForwarding (name, otlphttp c) o =
    (o.name ≡ name)
    × (o.limits ≡ record {
      caps = record {
        buffer_max_metrics = c.buffer_max_metrics;
        request_max_metrics = c.request_max_metrics;
      };
      backoff_initial = c.backoff_initial;
      backoff_max = c.backoff_max;
    })

abbrev pub IsShipping :
    {K : Type 0} → Text × ShipperConfig → Journal × LokiSink K × Shipper → Type 0
IsShipping (name, s) (journal, loki_sink, shipper) =
    (journal.name ≡ name)
    × (loki_sink.name ≡ name)
    × (shipper ≡ record { backoff_initial = s.backoff_initial; backoff_max = s.backoff_max })

-- The collectors are built before the forwarders.
pub data BuildsPipeline {C I B K : Type 0} (os : Outside C I B K) (now : ℕ) (c : Config)
    : Reply (List (Scheduled × Collector K) × List (Otlphttp K)) → Type 0 where
  both_built :
      (cs : List (Scheduled × Collector K)) (fs : List (Otlphttp K))
      → Matches (IsScheduled now) c.metrics.collectors cs
      → Matches IsForwarding c.metrics.forwarders fs
      → BuildsPipeline os now c (returned (ok (cs, fs)))
  collector_refused :
      (e : Error)
      → BuildsAll (IsScheduled now) (build_scheduled os now) c.metrics.collectors (returned (err e))
      → BuildsPipeline os now c (returned (err e))
  forwarder_refused :
      (cs : List (Scheduled × Collector K)) (e : Error)
      → Matches (IsScheduled now) c.metrics.collectors cs
      → BuildsAll IsForwarding (build_forwarder os) c.metrics.forwarders (returned (err e))
      → BuildsPipeline os now c (returned (err e))

module _ {C I B K : Type 0} (os : Outside C I B K) where
  IsAny : {A : Type 0} → A → Type 0
  IsAny a = Unit {0}

  returned-IsReturned : {A : Type 0} (r : Result A) → IsReturned IsAny (returned r)
  unfolding IsAny
  returned-IsReturned (ok a) = built a tt
  returned-IsReturned (err e) = refused e

  connect-IsReturned :
      (kind : Text → Error) (limit : Option ℕ) (auth : AuthConfig) (tls : TlsConfig)
      → HasMethod auth
      → IsReturned IsAny (connect os.http kind limit auth tls)
  unfolding connect IsAny
  connect-IsReturned kind limit auth tls h =
      let (m, e, same) =
        resolve_header-returns os.http.auth auth [] ((validate_auth-HasMethod auth []).1 h) in
      and_then-IsReturned {P = IsAny} (resolve_header os.http.auth auth) _
        (subst (IsReturned IsAny) (sym same) (returned-IsReturned (header_of os.http.auth m)))
        (λ header _. returned-IsReturned _)

  build_scheduled-IsReturned :
      (regex : Regexes) (now : ℕ) (kv : Text × CollectorConfig)
      → IsCollector regex kv.1
      → IsReturned (IsScheduled now kv) (build_scheduled os now kv)
  unfolding build_collector new_prometheus
  build_scheduled-IsReturned regex now (name, unix c) h =
      and_then-IsReturned {P = IsAny} (build_collector os name (unix c)) _ (returned-IsReturned _)
        (λ made _. built _ refl)
  build_scheduled-IsReturned regex now (name, prometheus c) h =
      and_then-IsReturned {P = IsAny} (build_collector os name (prometheus c)) _
        (and_then-IsReturned {P = IsAny} _ _
          (connect-IsReturned collector (some c.scrape_timeout) c.auth c.tls h.1.0)
          (λ _ _. returned-IsReturned _))
        (λ made _. built _ refl)

  build_forwarder-IsReturned :
      (kv : Text × ForwarderConfig)
      → IsForwarder kv.1
      → IsReturned (IsForwarding kv) (build_forwarder os kv)
  unfolding new_otlphttp
  build_forwarder-IsReturned (name, otlphttp c) h =
      and_then-IsReturned {P = IsAny} _ _
        (connect-IsReturned forwarder (some c.timeout) c.auth c.tls h.1.0)
        (λ _ _. built _ (refl, refl))

  build_sink-IsReturned :
      (name : Text) (s : LogSinkConfig)
      → IsSink s
      → IsReturned (λ (made : LokiSink K). made.name ≡ name) (build_sink os name s)
  unfolding new_loki
  build_sink-IsReturned name (loki c) h =
      and_then-IsReturned {P = IsAny} _ _ (connect-IsReturned sink none c.auth c.tls h.0)
        (λ _ _. built _ refl)

  build_source-IsReturned :
      (name instance_name : Text) (s : LogSourceConfig)
      → IsReturned
          (λ (made : Journal). made.name ≡ name)
          (returned (build_source os name instance_name s))
  unfolding new_journald
  build_source-IsReturned name instance_name (journald c) =
      bind-IsReturned (map_err _ (os.open_journal c.runtime_only)) _ (λ opened.
        bind-IsReturned (map_err _ os.journal_fd) _ (λ fd.
          bind-IsReturned (map_err _ os.register_fd) _ (λ registered.
            bind-IsReturned (read_saved_cursor c.cursor_file (os.cursors c.cursor_file)) _
              (λ last_acked. built _ refl))))

  build_shipper-IsReturned :
      (instance_name : Text) (kv : Text × ShipperConfig)
      → IsShipper kv.1
      → IsReturned (IsShipping kv) (build_shipper os instance_name kv)
  build_shipper-IsReturned instance_name (name, s) h =
      and_then-IsReturned _ _ (build_source-IsReturned name instance_name s.source) (λ journal p.
        and_then-IsReturned _ _ (build_sink-IsReturned name s.sink h.1)
          (λ loki_sink q. built _ (p, q, refl)))

  build_pipeline-BuildsPipeline :
      (now : ℕ) (regex : Regexes) (c : Config)
      → All (λ kv. IsCollector regex kv.1) c.metrics.collectors
      → All (λ kv. IsForwarder kv.1) c.metrics.forwarders
      → BuildsPipeline os now c (build_pipeline os now c)
  unfolding build_pipeline
  build_pipeline-BuildsPipeline now regex c collectors forwarders =
      first _
        (build_each-BuildsAll (λ kv. IsCollector regex kv.1) (IsScheduled now)
          (build_scheduled os now) (build_scheduled-IsReturned regex now) c.metrics.collectors
          collectors)
        _
        (build_each-BuildsAll (λ kv. IsForwarder kv.1) IsForwarding (build_forwarder os)
          build_forwarder-IsReturned c.metrics.forwarders forwarders)
    where
      second :
          (cs : List (Scheduled × Collector K)) (r : Reply (List (Otlphttp K)))
          → Matches (IsScheduled now) c.metrics.collectors cs
          → BuildsAll IsForwarding (build_forwarder os) c.metrics.forwarders r
          → BuildsPipeline os now c (and_then r (λ fs. returned (ok (cs, fs))))
      second cs r m (all_built fs k) = both_built cs fs m k
      second cs r m (first_refused front x back fs e split k refusal) =
          forwarder_refused cs e m (first_refused front x back fs e split k refusal)

      first :
          (q : Reply (List (Scheduled × Collector K)))
          → BuildsAll (IsScheduled now) (build_scheduled os now) c.metrics.collectors q
          → (r : Reply (List (Otlphttp K)))
          → BuildsAll IsForwarding (build_forwarder os) c.metrics.forwarders r
          → BuildsPipeline os now c (and_then q (λ cs. and_then r (λ fs. returned (ok (cs, fs)))))
      first q (all_built cs m) r k = second cs r m k
      first q (first_refused front x back cs e split m refusal) r k =
          collector_refused e (first_refused front x back cs e split m refusal)

  pub build-BuildsAll :
      (now : ℕ) (regex : Regexes) (env : Environment) (parsed : Result Config) (c : Config)
      → load regex env parsed ≡ ok c
      → BuildsPipeline os now c (build_pipeline os now c)
        × BuildsAll IsShipping
            (build_shipper os c.instance_config.name)
            c.logs.shippers
            (spawn_logs os c)
  unfolding spawn_logs
  build-BuildsAll now regex env parsed c h =
      let (named, (some_collector, (some_forwarder, (collectors, (forwarders, shippers))))) =
        (validate-IsConfig regex c).0 (load-validates regex env parsed c h) in
      (
        build_pipeline-BuildsPipeline now regex c collectors forwarders,
        build_each-BuildsAll (λ kv. IsShipper kv.1) IsShipping
            (build_shipper os c.instance_config.name)
            (build_shipper-IsReturned c.instance_config.name) c.logs.shippers shippers,
      )
