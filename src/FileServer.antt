-- ===== src/FileServer.antt =====
-- proxy/fileserver.go, but for parseRange, which is in Range: the file server of the page, with the
-- conditional requests of RFC 7232.
pub mod Etag
pub mod Conditions
pub mod Content
pub mod Dir
pub mod Files
mod Examples
