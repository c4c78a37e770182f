-- ===== src/Billing.antt =====
-- The module billing: plans.ts and service.ts.
pub mod Calendar
pub mod Plans
pub mod Lifecycle
pub mod Payments
pub mod Metering
pub mod Usage
pub mod Recording
pub mod Transitions
