-- ===== src/Lib.antt =====
-- Frontstead kit: a white-label real-estate platform. An API server (apps/api) keeps agents'
-- transactions, documents, inquiries, portals and events in a database, an MLS service
-- (apps/mls-service) copies listings from a RESO feed into the same database, and a portal serves
-- them to visitors. The development models the logic of the two servers and of shared packages:
--
-- Prelude: names passed on from the libraries, Boolean tests, lists, integers.
-- Db: one database table as an interface with its laws. The database is not part of the
-- repository, so every component takes its tables, and its queries by anything but the key, as
-- arguments; `finite_map` is a table that meets the laws, and the examples run on it.
-- Delivery: dispatchInquiryDeliveries of apps/api/src/services/inquiryDeliveryService.ts. A run is
-- a recursion over the candidates that the query returned; a row's claim, send, success and failure
-- are `dispatch_one`. Delivery/Batch, /Retries and /Invariant hold the proofs.
-- Mls: apps/mls-service/src/sync. Mls/Value is coerce.ts, Mls/Metrics the counters and the
-- watermark, Mls/Sync the run of runSync.ts with its lock, its dead letter and its cursor. The feed's
-- pages are a list that ends or throws; `dispatch` (mappers and persistence) is an argument over an
-- abstract store. A page is cut into chunks on fuel, and the fuel is the page's length, which
-- is enough because a chunk takes at least one record. The tasks of a chunk run in page order.
-- Documents: apps/api/src/services/transactionDocumentService.ts, the document slots of a
-- transaction: match, unmatch, verify, copy to Drive, add and delete.
-- Search: packages/search. Search/Collection is collectionPredicate.ts with buildPublicListingWhere of
-- propertyVisibility.ts; Prisma's query objects are the interface `Query`, and `Meaning` states what
-- Prisma documents of each form. JavaScript's numbers are a type with a comparison.
-- Actions: apps/api/src/services/actionQueueService.ts, the queue of suggested actions and its audit log,
-- with the pages of getQueue over the rows in the order of the query.
-- Domains: apps/api/src/services/portalDomainService.ts, the custom domains of a portal; host names are
-- lists of code units, and updateMany is the law of `Bulk` in Db.
-- Mls/Connector: apps/mls-service/src/connectors/reso/ResoWebApiConnector.ts, the retries of a request
-- (recursion on the attempts left) and the paging of a resource, which follows the vendor's links on
-- fuel, since a vendor can link for ever; a feed takes one unit of it for each request.
-- Cache: packages/cache/src/index.ts, the entries of properties and their invalidation; Redis is an
-- interface whose calls may throw.
-- Milestones: apps/api/src/services/transactionCreationFlowService.ts: the default template, the order of
-- the dates and the rows of a new transaction.
-- Mls/Mappers, Mls/Roster: apps/mls-service/src/sync/mappers.ts (status, type and display), sync/roster.ts and
-- connectors/reso/prefix.ts.
-- Search/Visibility: the filter strings of packages/search/propertyVisibility.ts.
-- Search/Indexing: the document of a property in the index, packages/search/reconcilePropertyDocument.ts,
-- transformers.ts, syncService.ts and propertyVisibility.ts; Indexing/Finite has the tables that the
-- examples run on. Db/Slugs: the slugs of packages/db/index.ts. Mls/Persistence: sync/persistence.ts of
-- the MLS service; Rows builds the columns, Write is the transaction and its retries (eight, counted
-- down), Process is one record, and Run is a synchronisation run that dispatches to it.
-- Mls/Auth: the cached token and single flight of connectors/reso/auth/OAuth2ClientCredentialsAuth.ts of
-- the MLS service, as a step relation on the object, its promises and its callers.
-- Risk: apps/api/src/services/transactionRiskService.ts; Risk.antt has the rules, Scan the texts, the
-- queueing and the capped loop.
-- Classification: evaluateClassifier of packages/portal-config/src/classification.ts; Rows and Runs are
-- packages/db/classification.ts, whose loop over pages runs on fuel, one more than the properties.
-- Search/Reindex: reindexAll of packages/search/syncService.ts over an abstract collection.
-- Mls/Persistence/Media: sync/media.ts of the MLS service, on the media rows and the watermark of each
-- property.
-- Readiness, with Readiness/Listings: apps/api/src/services/portalReadinessService.ts. A `where` of the
-- database is a test on a row, and the configuration of the portal is an argument.
--
-- Conventions: an instant is the ℕ of its milliseconds; identifiers are strings; a thrown error is
-- a value with its HTTP status and message; the clock, the queries and remote calls are arguments.
-- Log lines and analytics are left out. Not modelled: the React portal and the component library
-- (rendering), the HTTP routes (glue), the remote services (Google, Stripe, mail, the search engine:
-- code outside the repository), and the seeds and scripts.
pub mod Actions
pub mod Cache
pub mod Classification
pub mod Db
pub mod Delivery
pub mod Documents
pub mod Domains
pub mod Milestones
pub mod Mls
pub mod Prelude
pub mod Readiness
pub mod Risk
pub mod Search
