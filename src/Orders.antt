-- ===== src/Orders.antt =====
-- services/bazos-service/src/channel/orders/orders.service.ts: reading orders, finding the ad that a
-- line of an order names, making the items that Orders is sent, and the replay of past orders.
pub mod Query
pub mod Read
pub mod Lines
pub mod Visible
pub mod SourceLines
pub mod Items
pub mod Mapped
pub mod Replay
pub mod Asked
pub mod Several
pub mod Replayed
mod Tests
use bazos.Base.{ℕ, Option, List, ℤ}
use bazos.Store.{Outcome}

-- What Orders answers about an order: the text of its lifecycle status.
pub record CentralStatus : Type 0 where
  pub status : List ℕ

-- `read_id` is the identifier that a text denotes, where the database takes it for one, and `show_id`
-- the text of an identifier; `read_whole` is the number that a text denotes, if it is a whole one;
-- `get_order_lifecycle_status` is the request to Orders.
pub record OrdersEnv : Type 0 where
  pub read_id : List ℕ → Option ℕ
  pub show_id : ℕ → List ℕ
  pub read_whole : List ℕ → Option ℤ
  pub get_order_lifecycle_status : List ℕ → Outcome CentralStatus
