-- ===== src/Tests.antt =====
-- Concrete runs of the drivers, and the theorems applied to them.
mod Fixtures
mod Transfers
mod Machines
mod Channels
mod Cores
mod Devices
mod Clients
mod Proxy
