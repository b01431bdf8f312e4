-- ===== src/Examples.antt =====
-- The development's results at concrete inputs.
mod Tables
mod Servers
mod Sessions
mod Boards
mod Clients
mod Calls
mod Drivers
mod Wires
mod Drives
