-- ===== src/Tasks.antt =====
-- The tasks that open connections: NetworkTaskListen, NetworkTaskAcceptIO, NetworkTaskNewUser,
-- NetworkTaskConnect and NetworkTaskConnectIO of ServerCore/Network/NetworkTask.cpp with what they
-- call of NetworkSession.cpp, and what WorkerThread of NetworkServer.cpp does with a task that has
-- run.
pub mod Defs
pub mod Accept
pub mod Connect
pub mod Worker
pub mod Lifetime
mod Tests
