-- ===== src/Pool.antt =====
-- The pool of model APIs, internal/poolgateway.
pub mod Types
pub mod Store
pub mod Requests
pub mod Retry
pub mod Pricing
pub mod Gateway
