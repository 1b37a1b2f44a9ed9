-- ===== src/Examples.antt =====
-- The theorems at concrete inputs: histories, queues, texts, harnesses and Threads small enough to
-- compute with.
mod Data
mod Sessions
mod Queues
mod Texts
mod Compactions
mod Harnesses
mod Threads
mod Batches
mod Recoveries
mod Runs
mod Tools
mod Goals
mod Turns
mod Markers
