-- ===== src/Factorio.antt =====
-- factorio-cacher/src: the packets of the game, and what the two proxies do with them.
pub mod Protocol
pub mod RevCrc
pub mod Client
pub mod Server
pub mod Zip
pub mod World
pub mod Datagram
mod Tests
