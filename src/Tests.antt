-- ===== src/Tests.antt =====
-- Runs on sample rules, packets and texts, and the theorems at these samples.
mod Samples
mod Rules
mod Texts
mod Packets
mod Values
mod Start
mod Exchange
mod Cards
mod Scheduler
mod Talk
