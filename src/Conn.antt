-- ===== src/Conn.antt =====
-- ocssd_conn.h and the event callbacks of ocssd_libevent_server.cc: what the server does for one
-- client.
pub mod Nvm
pub mod Addresses
pub mod Blocks
pub mod Queue
pub mod Receive
pub mod Publish
pub mod Handlers
