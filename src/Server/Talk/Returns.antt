-- ===== src/Server/Talk/Returns.antt =====
-- Whether the part of talk_to_client of application/gssapi/server.c on its connection returns.
use kerberos.World.{Context, Returns}
