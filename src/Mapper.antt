-- ===== src/Mapper.antt =====
-- pkg/mapper: domain errors and their gRPC status, and domain values as messages.
pub mod Errors
pub mod Status
pub mod Proto
pub mod Text
