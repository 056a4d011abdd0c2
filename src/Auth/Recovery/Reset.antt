-- ===== src/Auth/Recovery/Reset.antt =====
-- A password reset, and its token afterwards (`resetPassword` of backend/src/auth/auth.service.ts).
