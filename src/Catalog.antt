-- ===== src/Catalog.antt =====
-- The catalog shop: src/modules/catalog. `Model` has the rows of its tables, `Orders` the order
-- service, `TrackingUrl` the courier links.
pub mod Model
pub mod TrackingUrl
pub mod Orders
