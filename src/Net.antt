-- ===== src/Net.antt =====
-- libs/net: the parts of the network library that need no socket.
pub mod Url
pub mod Robots
