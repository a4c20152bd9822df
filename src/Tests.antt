-- ===== src/Tests.antt =====
-- Runs of the model on a small world, and the theorems at concrete inputs.
mod EndToEnd
mod World
mod Config
mod Response
mod Polling
mod Invoke
mod Rediscovery
mod Wallet
mod Auth
mod ServiceId
mod Provider
mod Status
mod Session
mod Evidence
mod Quality
