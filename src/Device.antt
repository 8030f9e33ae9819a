-- ===== src/Device.antt =====
-- The physical resources of ocssd_server.h: the open-channel SSDs of a node, their channels and
-- their LUNs, and how the manager grants parts of them to clients. Every operation of a unit and of
-- the manager runs under a mutex, so a run of the program is a sequence of whole operations.
pub mod Lun
pub mod Channel
pub mod Drive
pub mod Manager
