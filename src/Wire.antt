-- ===== src/Wire.antt =====
-- The wire primitives of ocssd_server.h: a `char *` into a block of memory as a cursor, the helpers
-- `serialize_data4/8`, `deserialize_data4/8` and `get_header` that store and load through it,
-- little-endian, and when a writer and a reader agree. An access outside of the block is undefined
-- behaviour in C: here it is `none`.
pub mod Cursor
pub mod Codec
pub mod Fields
pub mod Loops
