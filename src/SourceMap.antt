-- ===== src/SourceMap.antt =====
-- server/app/sourcemaps.py: the source maps of JavaScript releases, and the rewriting of frames.
pub mod Vlq
pub mod Mapping
pub mod Symbolicate
pub mod Files
