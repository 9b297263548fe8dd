-- ===== src/Tests.antt =====
-- The theorems at concrete inputs, and runs of the definitions.
mod Numbers
mod Telemetry
mod Alarms
mod Causes
mod Audit
mod Gateway
mod Signals
mod Faults
mod Drafts
mod Registers
mod Graphs
mod Ingest
mod Cards
mod Plant
mod Situations
