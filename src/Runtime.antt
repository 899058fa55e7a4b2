-- ===== src/Runtime.antt =====
-- api/runtime.py: the endpoints that agents call.
pub mod State
pub mod Recording
pub mod Visible
pub mod Invoke
pub mod Listing
pub mod Usage
pub mod Mcp
