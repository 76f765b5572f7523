-- ===== src/Tests.antt =====
-- Concrete runs: the theorems at inputs where their hypotheses hold.
mod Parsing
mod Keys
mod Messages
mod Network
mod Keyboard
mod Session
mod Screen
mod Painted
mod Peers
