-- ===== src/Client.antt =====
-- application/gssapi/client.c
pub mod Args
pub mod Connect
pub mod Context
pub mod Call
