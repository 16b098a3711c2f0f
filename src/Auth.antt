-- ===== src/Auth.antt =====
-- Sign-in protection: server/src/services/login-lockout.service.ts and the password sign-in of
-- server/src/controllers/auth.controller.ts.
pub mod Lockout
pub mod Login
pub mod Sessions
