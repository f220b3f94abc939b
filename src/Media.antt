-- ===== src/Media.antt =====
-- apps/server/src/media-cache: the cache of media files.
pub mod HttpRange
pub mod Policy
pub mod Commands
pub mod ContentType
