-- ===== src/Buffer.antt =====
-- pkg/bufferutil: numbers, byte slices and vectors written to and read from a buffer.
pub mod Io
pub mod ByteOrder
pub mod FreeList
pub mod VarInt
pub mod Serializer
pub mod Deserializer
pub mod Rules
pub mod Scratch
pub mod Keeps
mod Tests
