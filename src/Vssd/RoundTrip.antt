-- ===== src/Vssd/RoundTrip.antt =====
-- What `serialize` of a virtual OCSSD stores, `deserialize` takes back, layer by layer.
pub mod Luns
pub mod Units
pub mod Whole
