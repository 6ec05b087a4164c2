-- ===== src/Log.antt =====
-- src/log: sources, sinks and the shipper between them.
pub mod Source
pub mod Journald
pub mod Loki
pub mod Shipper
pub mod EndToEnd
