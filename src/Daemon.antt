-- ===== src/Daemon.antt =====
-- daemon.py: what `Daemon` does for a request of the addon.
pub mod Packing
pub mod Order
pub mod Fitting
pub mod Keeping
pub mod Handlers
pub mod Tokens
pub mod Dispatch
pub mod Served
pub mod Carried
pub mod Reaper
mod Tests
mod TokenTests
mod HookTests
