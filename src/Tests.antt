-- ===== src/Tests.antt =====
-- Runs at concrete inputs: sample data, and each theorem that has a hypothesis at an input that
-- meets it.
mod Sample
mod Access
mod Reading
mod Locking
mod Selecting
mod Computing
mod Planning
mod Naming
mod Slots
mod Pruning
mod Coding
mod Stating
