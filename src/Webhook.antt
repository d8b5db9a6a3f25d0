-- ===== src/Webhook.antt =====
-- The pod webhook of the operator: internal/webhook/v1 and internal/metrics.
pub mod Annotations
pub mod Settings
pub mod ScrapeTarget
pub mod Builder
pub mod Collectors
pub mod Mutator
pub mod Registration
