-- ===== src/Lib.antt =====
-- A verification library for MMOServer, a game server core in C++ on I/O completion ports.
--
-- The program. ServerCore/Network holds the sessions. What a client sends comes by WSARecv into the
-- ring buffer of its session (ServerCore/Memory/RingBuffer.cpp); NetworkTaskReceiveIO cuts it into
-- packets of a four-byte length and a message, NetworkServer::Convert deciphers the message, and
-- NetworkSession::OnRecvMessage pushes a job to the session's JobQueue. A JobDispatcher has threads
-- that take active queues and run their jobs. NetworkSession::Send enciphers a buffer, queues it and
-- posts a NetworkTaskSend, which passes all that is queued to WSASend. ServerCore/Memory holds the
-- memory pools that all of this allocates from.
--
-- The files.
--   Shared, Families: numbers, lists, byte memories; families of threads and sums over them.
--   Ring: RingQ. State has the fields and sizes, Transfer has Enqueue, Dequeue and Peek, Segments the
--     buffers for WSARecv. The memory is a function on offsets behind m_Buffer, so that an access
--     past the array can be told. A position of -1, which the code can reach, is `none`.
--   Cipher: NetworkServer::Convert.
--   Receive: NetworkTaskReceiveIO and OnRecvMessage. The FlatBuffers verifier and reader are
--     parameters; effects outside the ring are a list of values. The parsing loop runs on fuel 7001:
--     each round takes a byte off at least, the ring holds fewer than 7000, and one round is for the
--     test that ends the loop.
--   Send: Packet has the enciphering of NetworkSession::Send, System the queueing and the send tasks
--     as a step relation. A task that cannot be told from another is a number below a bound `n`.
--     Queued has the same over the steps of a LockFreeQ; Refine and Composed lead it back to System.
--   EndToEnd: the send queue, the enciphering, the ring and the parsing loop together; the network
--     between them hands over a beginning of the bytes sent.
--   Jobs: JobQueue and JobDispatcher as a step relation of producers and `n` threads.
--   LockFree: Top has the compare-and-exchange loops that FreeList and LockFreeStack share
--     (ServerCore/Memory/FreeList.h, LockFreeStack.h), as single accesses of `n` threads; FreeList
--     the heap blocks, their headers, Alloc and Free around these loops, Preallocate the constructor
--     that makes blocks in advance, Stack Push and Pop with the count around them, Data the data in the
--     nodes, and Destroy the loop of the two destructors.
--   LockFreeQ: ServerCore/Memory/LockFreeQ.h. Defs has the nodes and where a thread stands, System each
--     shared access of EnQ and DeQ as a step, Atomic the queue whose calls act at once, Quiet the
--     destructor. A word in m_next is null, a node or a tag; fuel for the destructor is above the
--     number of nodes.
--   Calls: the containers whose calls act at once, which LockFreeQ and LockFreeStack are compared with.
--   Tasks: the tasks that listen, accept and connect (ServerCore/Network/NetworkTask.cpp) and the round
--     of NetworkServer::WorkerThread that runs them. What Winsock answers is a parameter; the calls made
--     are a list of values.
--   TemplateQ, PointerStack, MemoryPool: the array queue of ServerCore/Network/TemplateQ.h, the stack
--     of ServerCore/Utill/PointerStack.h, and the size table of ServerCore/Memory/MemoryPool.cpp,
--     whose loops run on fuel, the longest writes 2048 entries, with the allocator of MemoryPool.h.
--   ObjectPool: ServerCore/Memory/Chunk.h and ObjectPool.h, one call after the other. Fuel 2 is enough for
--     Alloc, since a page that is new has a slot; SlotCount is about the number of slots in a page.
--   Sessions: the session table of NetworkServer and the ids of ServerCore/Utill/UIDGenerator.cpp.
--   Bots: the bots of DummyClient/BotManager.cpp; Manager has BotManager as a whole and the loop of
--     DummyClient/DummyClient.cpp. Which sessions exist, and the clock, are parameters.
--   Log: the placeholders of ServerCore/Utill/LogManager.cpp, and in Text the arguments of LogManager.h.
--   TimeUtil: the times of ServerCore/Utill/TimeUtil.cpp, in milliseconds.
--   Profiler: Profiler.h and Profiler.cpp. Table has the samples of one thread, Calls the tables of the
--     threads; words of 64 bits keep their wrap-around. The clock is a parameter.
--   PlayServer: the table of handlers of PlayServer/PlayServer.h and the dispatch to them.
--
-- Integers are natural numbers where the code keeps them so; an `int` that may be negative
-- has its own type, a byte keeps its wrap-around, and the 64-bit check id of the lock-free loops is
-- taken not to come back to an old value. Memory is sequentially consistent.
--
-- Not modelled: several threads at one chunk page at a time; the log writer, the database layer, the
-- main function, the memory log and dumps, which are input and output; and the vendored libraries.
pub mod Shared
pub mod EndToEnd
pub mod Families
pub mod Ring
pub mod Calls
pub mod Cipher
pub mod Receive
pub mod Send
pub mod Jobs
pub mod LockFree
pub mod TemplateQ
pub mod ObjectPool
pub mod PointerStack
pub mod Profiler
pub mod MemoryPool
pub mod Sessions
pub mod Bots
pub mod Log
pub mod PlayServer
pub mod TimeUtil
pub mod Tasks
pub mod LockFreeQ
