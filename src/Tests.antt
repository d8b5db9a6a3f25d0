-- ===== src/Tests.antt =====
-- Concrete inputs and runs of the models on them.
mod Data
mod Operator
mod Monitoring
mod Delivery
mod Answers
mod Collecting
mod Starting
mod Registering
mod Buckets
mod Goroutines
mod Sharing
mod Watching
mod Profiles
mod Unlimited
mod Copies
mod Injecting
mod Concurrency
mod Thresholds
