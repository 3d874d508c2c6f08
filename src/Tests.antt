-- ===== src/Tests.antt =====
-- Concrete states and runs on which the theorems of this library are applied.
mod Samples
mod Numbers
mod Devices
mod Listing
mod Machine
mod Supervisor
