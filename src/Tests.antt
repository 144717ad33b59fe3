-- ===== src/Tests.antt =====
-- Runs of the definitions at concrete inputs, and the theorems at inputs that meet their hypotheses.
pub mod Data
mod RbTree
mod Timer
mod Socket
mod Dpdk
mod Main
mod Others
mod Mbuf
mod Waking
