-- ===== src/Forwarder.antt =====
-- src/forwarder/otlphttp.rs: the OTLP forwarder.
pub mod Buffer
pub mod Run
pub mod Request
