-- ===== src/Catalog.antt =====
-- internal/service/catalog/service.go: lists of anime and their details, from the memory, the
-- database or the provider, cleaned of labels that the clients should not see.
pub mod Clean
pub mod Listing
pub mod Detail
