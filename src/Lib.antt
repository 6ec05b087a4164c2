-- ===== src/Lib.antt =====
-- Ferrometer collects metrics of a host and of Prometheus endpoints and ships them to an OTLP backend,
-- and ships the system's journal to Loki. This library models the parts of it that decide what is
-- sent, when and how often, as functions that can be run, and proves what they promise.
--
-- How the parts interact. The configuration (src/config.rs) is read, validated and its placeholders
-- are expanded. The scheduler (src/pipeline.rs) starts the collectors when they are due, gathers
-- their metrics into batches and submits each batch to every forwarder. A forwarder
-- (src/forwarder/otlphttp.rs) keeps batches in a bounded ring buffer and sends them with retries.
-- A shipper (src/log/shipper.rs) moves batches from a source (src/log/source/journald.rs) to a sink
-- (src/log/sink/loki.rs) and acknowledges them to the source.
--
-- Which file models which part:
--   Prelude, Prelude/*    shared names, lists, texts, decimal numbers, ordered maps and grouping
--   Error, Signal         src/error.rs and src/signal.rs: errors as values; metrics
--   Backoff               the exponential backoff of src/log/shipper.rs and src/forwarder/otlphttp.rs
--   Config/Parse          parse_duration, parse_byte_size
--   Config/Placeholders   resolve_placeholder, expand_placeholders, expand_path
--   Config/Security       TlsConfig and AuthConfig, with validate and resolve_placeholders
--   Config/Types          the other sections of the configuration, with their defaults
--   Config/Validate       Config::validate and the functions that it calls
--   Config/Resolve        Config::resolve_placeholders, load_unresolved, load
--   Auth                  src/auth.rs: resolve_header, read_trimmed
--   Pipeline              scheduler_loop, handle_result, submit_batch
--   Metrics               src/pipeline.rs: run, the scheduler with the tasks of the forwarders
--   Start                 what run and spawn_logs of src/main.rs build: the constructors of scrapers,
--                         forwarders, sources and sinks
--   Tls                   src/tls.rs: configure, read_pem
--   Collector/LabelCache  src/collector/label_cache.rs: LabelCache::intern
--   Collector/Emit        how all collectors of the host push metrics with labels from the cache
--   Collector/Files       read_string and read_u64 of src/collector/unix/md.rs and cpu.rs
--   Collector/Cpu, Memory, Disk, Netdev, Loadavg, Uname
--                         src/collector/unix/<name>.rs: collect
--   Collector/Filesystem  src/collector/unix/filesystem.rs: collect, is_more_canonical
--   Collector/Md          src/collector/unix/md.rs: activity_state, disk_bucket, members, tallies
--   Collector/Md/Series   src/collector/unix/md.rs: arrays, collect_array, collect
--   Collector/Hwmon       src/collector/unix/hwmon.rs: split_attr, sensor_type, metric_name, sanitize,
--                         chip_name, block_devices_by_path
--   Collector/Hwmon/Chip  src/collector/unix/hwmon.rs: collect_chip, collect
--   Collector/Unix        src/collector/unix/mod.rs: UnixCollector::new, collect
--   Collector/Prometheus  src/collector/prometheus.rs: scrape, collect, sample_to_metric
--   Forwarder/Buffer      submit, pop_for_send, requeue
--   Forwarder/Run         drain_and_send, run, shutdown
--   Forwarder/Request     build_slice_request and its helpers
--   Log/Source            LogEntry::approx_size, Batch::push
--   Log/Journald          the state of the source, record_to_entry, batch_has_room, drain_available
--   Log/Journald/Peek     position_to_start, wait_for_journal_event, build_batch, peek_batch
--   Log/Journald/Cursors  persist_cursor, read_saved_cursor, ack
--   Log/Loki              build_body, format_label_string, send, summarize_body and their helpers
--   Log/Shipper           run, finish_batch, Progress
--   Log/EndToEnd          src/main.rs: a shipper over the journal, as spawn_logs builds it
-- The theorems stand in the modules below these, and the tests and instances in their Tests.
--
-- How code becomes a model. A loop that waits is a function of one round: the answers of the clock,
-- the network, the journal and the signals in that round are its arguments, and a run is a list of
-- rounds. So the theorems hold for all interleavings of these answers. Text is the list of its code
-- points, instants and durations are nanoseconds, and a HashMap is an association list in the order
-- in which it is iterated. Counters of metrics and entries count what is held in memory and are not
-- wrapped; the u32 counters, the seconds of a duration and the nanoseconds of a time are. A backoff is
-- not bounded: the panics of `backoff * 2` and of `now + backoff` beyond what a Duration or an Instant
-- holds, which need a backoff of billions of years, are not modelled.
--
-- Fuel. `expand_loop` gets one round more than the text has code points, and each round takes two of
-- them; `catch_up` gets one round more than `now` is ahead, and each round adds at least one. All
-- other loops are structural, on the list that they read or on the rounds of the run.
--
-- Values. An `f64` is an element of a type that is an argument, with the operations that the code
-- uses (Collector/Emit.Floats), so that no theorem depends on how they round. All metrics of one
-- collection carry one time. What procfs, sysfs and system calls answer is an argument.
--
-- Not modelled: the command line, the rest of src/main.rs, log output, generated messages, and
-- the code of other crates (serde, toml, regex, reqwest, procfs, prost, snap, base64, systemd), which
-- stands as arguments where the code uses it.
pub mod Prelude
pub mod Error
pub mod Tls
pub mod Auth
pub mod Config
pub mod Collector
pub mod Backoff
pub mod Signal
pub mod Log
pub mod Forwarder
pub mod Pipeline
pub mod Metrics
pub mod Start
