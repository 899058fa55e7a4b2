-- ===== src/Tests.antt =====
-- Runs of the model on small data, and the theorems at inputs that meet their hypotheses.
mod Fixture
mod Admin
mod Apisix
mod Auth
mod Capabilities
mod Listing
mod Mcp
mod Requests
mod Retention
mod Runtime
mod Upstream
mod Usage
mod Gateway
