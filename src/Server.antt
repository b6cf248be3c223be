-- ===== src/Server.antt =====
-- application/gssapi/server.c
pub mod Args
pub mod Listen
pub mod Context
pub mod Talk
