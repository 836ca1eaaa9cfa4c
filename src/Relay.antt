-- ===== src/Relay.antt =====
-- internal/relay: one relay instance. JSON, the clock, the uuid generator and the scheduler's free
-- choices are parameters. The counter of the hub numbers the frames that the relay makes.
pub mod Protocol
pub mod Session
pub mod Hub
pub mod Frames
pub mod Life
pub mod Connect
