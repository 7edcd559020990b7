-- ===== src/Samplers.antt =====
-- The samplers of the plugin that run on a thread of their own, or in a hook of their own
-- (plugin/src/samplers: memory_sampler.cpp, state_sampler.cpp, streaming_sampler.cpp and
-- papyrus_sampler.cpp). What they observe of the engine and of Windows are arguments.
pub mod Ticker
pub mod Memory
pub mod State
pub mod Streaming
pub mod Balance
pub mod Received
pub mod Graphs
pub mod Papyrus
pub mod Shown
pub mod Totals
mod Tests
