-- ===== src/Net.antt =====
-- include/net and src/net: the network library.
pub mod Buffer
pub mod Channel
pub mod Connection
pub mod Connector
pub mod EpollPoller
pub mod EventLoop
pub mod LoadCounter
pub mod LoopPool
pub mod TcpServer
