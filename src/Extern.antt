-- ===== src/Extern.antt =====
-- Interfaces of third-party crates, each a record of operations with laws that state their
-- documentation. The components take them as section parameters.
pub mod ByteBuf
pub mod XxHash
pub mod VarInt
pub mod Finder
pub mod Blake3
pub mod Crc
pub mod Deflate
pub mod LinkedMap
