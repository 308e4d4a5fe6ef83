-- ===== src/Examples.antt =====
-- Concrete inputs at which the theorems' hypotheses hold, one module for each component.
mod Values
mod Bloom
mod Messages
mod Pool
mod Requests
mod Nodes
mod Peers
mod Filtering
mod Running
mod Sending
mod Polling
mod Confirming
mod Reading
mod Announcing
