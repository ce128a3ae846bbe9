-- ===== src/Tests.antt =====
-- Runs of the models on small inputs, and each theorem applied to one.
mod Samples
mod Pipelines
mod Policies
mod Payloads
mod Spools
mod Redactions
mod Servers
mod Configs
mod Atomics
mod Crashes
