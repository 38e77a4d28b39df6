-- ===== src/Billing.antt =====
-- app/billing: checkouts, subscriptions, refunds and their webhooks.
pub mod Money
pub mod Calendar
pub mod Types
pub mod Refunds
pub mod Status
pub mod Requests
pub mod Desk
pub mod Cards
pub mod Webhooks
pub mod Prepare
pub mod Blocker
pub mod Create
pub mod Activation
pub mod Entitlements
mod Examples
