-- ===== src/Witness.antt =====
-- The theorems applied at concrete inputs, and tests of the definitions.
mod Toys
mod Store
mod Processes
mod Settings
mod Keys
mod Logs
mod Enrolment
mod Tokens
mod Reports
mod Monitor
mod Stops
mod Renewals
mod Commands
mod Onboarding
