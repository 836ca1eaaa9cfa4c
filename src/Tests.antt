-- ===== src/Tests.antt =====
-- Concrete runs of the program, and the properties applied to them.
mod Auth
mod Pairs
mod Hub
mod Far
mod E2ee
mod Billing
mod Claims
mod Settings
mod Connect
mod Parts
