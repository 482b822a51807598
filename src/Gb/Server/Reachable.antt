-- ===== src/Gb/Server/Reachable.antt =====
-- server.rs: whom the server sends to is registered.
use lite_nvr.Common.{nat_eq, string_eq}
use lite_nvr.Gb.Registrar.{Registrar}
