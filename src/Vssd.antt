-- ===== src/Vssd.antt =====
-- The virtual open-channel SSD of ocssd_server.h, `virtual_ocssd`, and what it is made of: units,
-- channels and LUNs. Each has `serialize` and `deserialize`; the wire format nests them.
pub mod Lun
pub mod Channel
pub mod Member
pub mod Ssd
pub mod RoundTrip
