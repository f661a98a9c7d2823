-- ===== src/Tests.antt =====
-- Runs of the code and of its theorems at concrete inputs.
mod Cia402
mod Bridge
mod Motor
mod Slave
mod Valve
mod Core
mod Container
mod Nodes
mod Master
mod Control
mod Devices
mod Proxy
