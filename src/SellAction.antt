-- ===== src/SellAction.antt =====
-- shared/bazos/catalog/bazos-catalog-sell-action.service.ts: a product of Catalog is prepared as a
-- draft, queued after the seller's confirmation, and followed.
pub mod Quality
pub mod Stock
pub mod Draft
pub mod Action
pub mod Shown
pub mod Status
pub mod Confirmed
pub mod Prepared
pub mod Quiet
mod Tests
pub mod Preflight
