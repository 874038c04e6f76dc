-- ===== src/Service.antt =====
-- The package service: short codes, the validation of destinations, URLService and
-- CachedURLService.
pub mod ShortCode
pub mod Validate
pub mod Urls
pub mod Cached
