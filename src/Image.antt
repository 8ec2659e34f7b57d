-- ===== src/Image.antt =====
-- apps/web/lib/image-metadata.ts: the byte-level metadata scanner of uploads.
pub mod Bytes
pub mod Scan
pub mod Jpeg
pub mod Png
pub mod Webp
pub mod Gif
pub mod Sniff
pub mod Safety
pub mod Fair
pub mod Metadata
pub mod Clean
mod Tests
