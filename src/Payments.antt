-- ===== src/Payments.antt =====
-- payments/service.py: payments by card or mobile money, the votes they buy, and their refunds.
pub mod Model
pub mod Machine
pub mod Gateway
pub mod Refunds
pub mod Webhooks
pub mod Desk
pub mod Pricing
pub mod Checkout
mod Tests
