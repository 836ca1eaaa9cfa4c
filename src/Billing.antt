-- ===== src/Billing.antt =====
-- internal/billing: the mirror of Stripe's subscriptions, and the licenses that it provisions.
pub mod Objects
pub mod Run
pub mod Sync
pub mod Events
pub mod Retry
pub mod Leaves
pub mod Frame
pub mod Mirror
pub mod Lapse
pub mod Steady
pub mod Listing
pub mod Settle
