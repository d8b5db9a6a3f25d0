-- ===== src/Sidecar.antt =====
-- The sidecar process: sidecar/cmd/main.go and sidecar/pkg.
pub mod Types
pub mod Config
pub mod Logging
pub mod Metrics
pub mod Collectors
pub mod Storage
pub mod Collect
pub mod Kubelet
pub mod Monitor
pub mod Start
