-- ===== src/Tests.antt =====
-- Runs of the models on concrete inputs, and the theorems at inputs that meet their hypotheses.
mod Socks
mod Events
mod Logs
mod Ffi
mod Onion
mod Config
mod Client
mod New
mod Wait
mod Instance
mod Feed
mod Workers
mod Unordered
mod Tasks
mod Racing
