-- ===== src/Auth.antt =====
-- framework/web/security_middleware.go and framework/security: bearer tokens, their claims, and the
-- requests that are served.
pub mod Claims
pub mod Validators
pub mod Serving
pub mod Roles
pub mod Keys
pub mod Admission
mod Tests
