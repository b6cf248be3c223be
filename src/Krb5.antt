-- ===== src/Krb5.antt =====
-- application/krb5-api: the programs that use libkrb5 directly.
pub mod Client
pub mod Server
pub mod Ends
