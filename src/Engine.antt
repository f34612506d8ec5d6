-- ===== src/Engine.antt =====
-- src/native_dsp_graph.rs: the realtime loop engine, one module for each of its parts.
pub mod Pulse
pub mod Storage
pub mod Command
pub mod Transfer
pub mod Blocks
pub mod Loop
pub mod Mixer
pub mod Runtime
