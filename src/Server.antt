-- ===== src/Server.antt =====
-- pkg/rtmp/server: what the server does with streams and with those who publish and play them.
pub mod Table
pub mod Amf
pub mod Client
pub mod Player
pub mod Session
pub mod Broker
pub mod Conn
pub mod Options
