-- ===== src/Tests.antt =====
-- The theorems applied to concrete inputs, and the data that they are applied to.
mod Data
mod Numbers
mod Codec
mod Doors
mod Operations
mod Simulator
mod Inbox
mod Approvals
mod Services
mod Expiry
