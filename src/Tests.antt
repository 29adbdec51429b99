-- ===== src/Tests.antt =====
-- Runs of the definitions, and uses of the theorems, on concrete inputs.
pub mod Samples
pub mod Laws
pub mod Clients
pub mod Codes
pub mod Flow
pub mod Handlers
pub mod Startup
pub mod Threads
pub mod Service
pub mod Identity
pub mod EndToEnd
pub mod Unit
