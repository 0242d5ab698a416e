-- ===== src/Socket.antt =====
-- socket/: the sockets over the system calls, whose results are arguments of the model.
pub mod Inet
pub mod Tcp
pub mod Udp
