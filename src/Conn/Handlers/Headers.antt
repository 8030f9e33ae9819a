-- ===== src/Conn/Handlers/Headers.antt =====
-- The header that `process_command` reads, and the request that the handler parses, are of one message.
use light_nvm.Base.{ℕ, ◌≡◌, arith, List, some}
use light_nvm.Wire.Cursor.{get_header}
use light_nvm.Request.{
  read_block_request, write_block_request, erase_block_request, parsed, request_magic,
  read_block_magic, write_block_magic, erase_block_magic,
}
use light_nvm.Request.Io.{IoRequest, is_bad_magic, command_of}
use light_nvm.Request.Io
use light_nvm.Request.Alloc.{AllocRequest}
use light_nvm.Request.Alloc

-- A message that parses as an allocation request has its magic.
pub alloc-header :
    (message : List ℕ) (r : AllocRequest)
    → Alloc.of_buffer message ≡ some (parsed r)
    → get_header message ≡ some request_magic
unfolding Alloc.of_buffer Alloc.parse get_header
alloc-header message r h = ground arith

-- A message that parses as a block request has the magic of its command.
pub write-header :
    (message : List ℕ) (r : IoRequest)
    → Io.of_buffer message ≡ some (parsed r)
    → r.command ≡ write_block_request
    → get_header message ≡ some write_block_magic
unfolding Io.of_buffer Io.parse Io.parse_fields get_header is_bad_magic command_of
write-header message r h c = ground arith

pub read-header :
    (message : List ℕ) (r : IoRequest)
    → Io.of_buffer message ≡ some (parsed r)
    → r.command ≡ read_block_request
    → get_header message ≡ some read_block_magic
unfolding Io.of_buffer Io.parse Io.parse_fields get_header is_bad_magic command_of
read-header message r h c = ground arith

pub erase-header :
    (message : List ℕ) (r : IoRequest)
    → Io.of_buffer message ≡ some (parsed r)
    → r.command ≡ erase_block_request
    → get_header message ≡ some erase_block_magic
unfolding Io.of_buffer Io.parse Io.parse_fields get_header is_bad_magic command_of
erase-header message r h c = ground arith
