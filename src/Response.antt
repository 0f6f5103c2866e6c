-- ===== src/Response.antt =====
-- pkg/response: JSON responses built by writing progress fields into cached JSON, as lists of bytes.
pub mod Bytes
pub mod Escape
pub mod Fields
pub mod Inject
pub mod Builder
