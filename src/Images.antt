-- ===== src/Images.antt =====
-- app/src/cover_image_cache.cpp: the cache of remote images. Memory is the cache in memory, Loader the
-- requests and the threads that serve them, Disk the files and the signatures of images.
pub mod Memory
pub mod Loader
pub mod Disk
mod Tests
