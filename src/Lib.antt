-- ===== src/Lib.antt =====
-- drumlin, a C++ library for servers: heaps of equal blocks for buffers, the identities under which the
-- heaps are exposed, a cache of them with subscriptions, an application with threads and events, and
-- the strings, byte arrays and registries that these use. Paths are those of the repository.
--
-- The allocation. A user declares its needs (uses_allocator.h and uses_allocator.cpp: UsesAllocator),
-- the allocator registers it and gives it a heap of malloc'd memory (allocator.h and allocator.cpp:
-- Heap for heap_t, Allocator for Allocator), and the cache exposes heaps under identities and tells
-- subscribers of their buffers (buffer_cache.h and buffer_cache.cpp: BufferCache; the buffers themselves are
-- HeapBuffer of buffer.h and buffer.cpp: Buffers). The calls of both go
-- through struct access of buffer_cache.h, which takes the mutex of the object (Access for the cache, whose mutex
-- is a std::mutex; Access/Recursive for the allocator, whose mutex is recursive, with the allocator's
-- calls in Allocator/Sharing). Identities stand
-- in use_ident.h and use_ident.cpp (UseIdent), and so do the filters over them (Filters).
-- The heaps are shared objects: the cache's record holds the memory in which they stand by address, and
-- the allocator's record holds the cache.
--
-- The application. It keeps a list of threads (application.cpp and thread.cpp: Threads) and runs a loop
-- over its queue of events (event.h and application.cpp: Event and Dispatch). Running has the threads'
-- own loops (thread.cpp: run, exec and event), as a relation of single steps of any of the threads and
-- of the application. An accessor chooses threads and hands events to them (thread_accessor.cpp,
-- thread_worker.cpp and event.cpp: Accessor). A thread is a store of work too (work.h and work.cpp:
-- Work). Signals ask for the shutdown (signalhandler.cpp: Signals). What the threads log, and the mutexes that
-- they have then, is Logging (logger.cpp, the macros of drumlin.h, and the calls of thread.cpp and
-- event.cpp that log), as acts of threads next to one another. The reports of all these to a status are
-- Status (toJson and getStatus in the files above).
--
-- The connections. A server accepts them (connection.h and connection.cpp: Connection), and each has a
-- socket with a queue of buffers to write and one of buffers that were read (socket.h: Socket).
--
-- The rest. string_list.h and string_list.cpp: StringList; byte_array.h and byte_array.cpp: ByteArray;
-- registry.h and registry.cpp: Registry; cursor.cpp: Tracer, with the walk through the frames in
-- Tracer/Unwinding; regexen.h: Regexen, the captures of a match
-- and their replacement; jsonconfig.cpp: JsonConfig, the configurations cached by path; mutexcall.h and the
-- calls of uses_allocator.h: Mutexcall; metatypes.h and object.cpp: Metatypes. Prelude holds what the
-- components share: tests on numbers, lists, bytes and the maps of the C++ library.
--
-- In each component the state is a record with the source's members, and an operation is a function with
-- the source's name in this language's spelling. What changes an object returns the new one. An
-- exception is `none` or `thrown`, a result of which the C++ standard says nothing is `none`
-- or `undefined`. Pointers and addresses are numbers, 0 is the null pointer, and numbers of w
-- bits wrap around where the source lets them. Texts are lists of bytes.
--
-- Bounds. exec of Dispatch runs for a number of rounds, one event in each. The copies of a byte array
-- have a bound on the depth of their calls, since they call one another without end. The loops of
-- readAll and of the conversion to a string list, and std::set_intersection, are given more rounds
-- than their lists have elements. writing and bytesWritten of a socket call one another, and get one call
-- more than there are buffers.
--
-- Parameters. SHA-256, the combination of hashes, the printing of numbers, boost's split, regular
-- expressions and searches, dynamic_cast, the order of an unordered map, malloc's results, what a
-- worker takes of the events, what the wire accepts of a buffer and what arrives, the handler of a
-- socket, tao::json, the files, libunwind's frames, and, in Dispatch, what other threads do while one is
-- joined are arguments. Outside Running, Access and Logging calls are one after the other: locks are left
-- out there.
--
-- Not modelled. Status::visit of status.cpp takes a StatusProvider, which no class here derives from. The printing of threads and identities is output. AsioClient and
-- the udp sockets only call asio. Application::stop is no step of Running, since it waits for threads while it walks
-- through the list of them.
pub mod Prelude
pub mod Socket
pub mod Regexen
pub mod JsonConfig
pub mod Connection
pub mod Metatypes
pub mod Mutexcall
pub mod StringList
pub mod ByteArray
pub mod Heap
pub mod UsesAllocator
pub mod UseIdent
pub mod Filters
pub mod BufferCache
pub mod Buffers
pub mod Allocator
pub mod Event
pub mod Threads
pub mod Accessor
pub mod Dispatch
pub mod Running
pub mod Work
pub mod Signals
pub mod Registry
pub mod Tracer
pub mod Logging
pub mod Access
pub mod Status
