-- ===== src/Auth.antt =====
-- Authentication: app/services/auth_throttle.py, app/api/auth.py and app/core/security.py.
pub mod Throttle
pub mod Security
pub mod Login
pub mod Guesses
pub mod Separation
