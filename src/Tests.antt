-- ===== src/Tests.antt =====
-- Runs of the model on concrete inputs: for each property with conditions, a case where they hold.
mod Fixtures
mod Registry
mod Sessions
mod Flow
mod Tokens
mod Endpoints
mod EndToEnd
mod Service
mod Cnc
mod Channels
mod Authority
mod Programs
mod Started
mod Interleaving
mod Joined
