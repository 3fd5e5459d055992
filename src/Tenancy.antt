-- ===== src/Tenancy.antt =====
-- multi_tenancy/: the tenants with the map from domains to them, the rate limit of a tenant, and the
-- quarantine of each tenant.
pub mod Manager
pub mod RateLimiter
mod Tests
