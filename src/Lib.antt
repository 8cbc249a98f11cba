-- ===== src/Lib.antt =====
-- A verification library for the publishing core of the Bazos marketplace integration.
--
-- The program lists a seller's catalog products as classified ads on bazos.cz. A publication may go
-- out only through an identity that a human has verified, with the seller's consent, and past a row
-- of policy gates. The services share one database.
--
-- Gate: shared/bazos/policy/publish-policy.types.ts. Store: the tables of prisma/schema.prisma as
-- lists of rows, and the queries of the services (`findUnique`, `findFirst`, `update`,
-- `updateMany`, `create`) as functions on them in a state monad with exceptions. What a service has
-- written when it throws stays written, as in the code, which opens no transaction. Store/Avoids
-- has the rules for what an operation never brings about, Store/Keys those for reading a row after
-- a write. Json: the values of JSON documents. Policy:
-- shared/bazos/policy/publish-policy.service.ts, `evaluate` and each gate as a function that
-- returns the failures that it pushes. Consent: shared/bazos/consent/bazos-consent.service.ts.
-- Identity: shared/bazos/identity/bazos-identity.service.ts, with Envelope for the stored browser
-- sessions, Record for the identity's own row, Sessions for the verification sessions, Accounts for
-- the linked account, and Calls for histories of calls. Publisher:
-- shared/bazos/publisher/bazos-publisher-queue.service.ts, with Options for what the operator's
-- browser is given, Queue for enqueueing, Claim for handing out and Record for results. Ad:
-- shared/bazos/ad/bazos-ad.service.ts, the check of a draft and the challenges recorded on an ad.
-- Store/Runs takes a run that ends without an exception apart.
--
-- Ad/Tracking has the schedule by which published ads are followed on their public pages,
-- Ad/Refresh what is done with them. Store/Checks: the JSON columns that several services extend.
-- Store/Loops: loops over rows, with the rules for what a loop brings about; Store/Held: rows that
-- stay. Monitoring: shared/bazos/monitoring/bazos-monitoring.service.ts. Reconciliation:
-- shared/bazos/reconciliation/bazos-availability-reconciliation.service.ts. Events:
-- shared/rabbitmq/stock-events.subscriber.ts in Stock and
-- shared/rabbitmq/catalog-product-events.subscriber.ts in Catalog, with Sweep for the loop that
-- they share with the reconciliation. Orders:
-- services/bazos-service/src/channel/orders/orders.service.ts, the reading of orders (Read), the ad
-- that a line of an order names (Lines), the items that Orders is sent for the lines (SourceLines
-- and Items, over amounts of any type) and the replay of past orders (Replay). Retry:
-- shared/resilience/retry.service.ts, whose loop is on the number of calls that are left.
--
-- Ad/Product, Ad/Ensure, Ad/Drafts and Ad/Uploads have the creation of drafts and the calls of
-- Catalog that it makes, Ad/Editing the editing of ads and the lists of a user's ads. SellAction:
-- shared/bazos/catalog/bazos-catalog-sell-action.service.ts, with Quality for the preflight, Stock
-- and Draft for the draft of a product, Shown for what the answers say, Action for `prepare` and
-- `confirm`, and Status for `status`. Offers:
-- services/bazos-service/src/channel/offers/offers.service.ts and
-- services/bazos-service/src/channel/accounts/accounts.service.ts. Auth:
-- shared/auth/jwt-auth.guard.ts and shared/auth/auth.service.ts. Growth:
-- services/bazos-service/src/ui/growth-attribution.ts and growth-attribution.service.ts.
-- Base/Split splits texts.
--
-- Identifiers (uuid columns) are numbers, compared for equality only; `Store.next_id` supplies
-- fresh ones. Times are milliseconds. The clock is read once in each operation. The random source,
-- the clock, the order in which the database lists rows by `updatedAt` or, for ads, by `createdAt`,
-- the number that a text denotes, the digest, the source of passwords, `decodeURIComponent`, the
-- date that a public page shows, and the replies of Warehouse, Catalog, auth-microservice and
-- growth-core are arguments. Texts are compared as native strings; `toLowerCase` is modelled on
-- ASCII letters. Not modelled: log lines, the wording of messages, the evidence column of
-- verification sessions, which no code reads, foreign keys and column widths, HTTP routing and
-- validation decorators, the columns `updatedAt`, the writing of new orders, the parsing of public
-- pages, what the calls of Catalog change there, the publishing module of
-- services/bazos-service/src/channel/publishing, which no module of the application imports, the
-- gateway and the user interface, and two calls that interleave between the awaits of one
-- operation.
pub mod Base
pub mod Gate
pub mod Retry
pub mod Growth
pub mod Offers
pub mod Auth
pub mod SellAction
pub mod Store
pub mod Orders
pub mod Policy
pub mod Consent
pub mod Json
pub mod Identity
pub mod Publisher
pub mod Reconciliation
pub mod Ad
pub mod Events
pub mod Monitoring
mod Fixtures
