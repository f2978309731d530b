-- ===== src/Tests.antt =====
-- The theorems at concrete inputs, and runs of the definitions.
mod Codec
mod Payloads
mod Session
mod Script
mod Bringup
mod Flow
mod Reference
mod Qualification
mod Ascon
