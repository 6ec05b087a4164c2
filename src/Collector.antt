-- ===== src/Collector.antt =====
-- src/collector: what turns the state of a host into metrics.
pub mod LabelCache
pub mod Emit
pub mod Files
pub mod Memory
pub mod Netdev
pub mod Loadavg
pub mod Uname
pub mod Disk
pub mod Cpu
pub mod Unix
pub mod Filesystem
pub mod Md
pub mod Prometheus
pub mod Hwmon
