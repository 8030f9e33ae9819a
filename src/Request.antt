-- ===== src/Request.antt =====
-- The two kinds of 24-byte messages of ocssd_server.h, `ocssd_io_request` and `ocssd_alloc_request`:
-- what they share.
pub mod Io
pub mod Alloc
use light_nvm.Base.{ℕ}

pub data RequestCode : Type 0 where
  no_request alloc_vssd_request read_block_request write_block_request : RequestCode
  erase_block_request : RequestCode

abbrev pub read_block_magic : ℕ
read_block_magic = 0x6401

abbrev pub write_block_magic : ℕ
write_block_magic = 0x6402

abbrev pub erase_block_magic : ℕ
erase_block_magic = 0x6403

abbrev pub request_magic : ℕ
request_magic = 0x6501

-- What a constructor that parses a buffer gives: the object, or a `std::runtime_error`.
pub data Parsed {ℓ} (A : Type ℓ) : Type ℓ where
  parsed : A → Parsed A
  threw : Parsed A
