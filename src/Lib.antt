-- ===== src/Lib.antt =====
-- libuvwrapper: a model of the C++ wrapper around libuv, with proofs of what its parts promise.
--
-- The program. libuvcpp/ is the wrapper: a loop that runs in a thread of its own and takes
-- requests from any thread through a pool of async handles (loop.cpp), connections that send and
-- receive (connect.cpp), timers (timer.cpp), a listener (accept.cpp), and a TCP server and client
-- over these. util/safebuffer.cpp is the growing byte buffer that a connection copies its data
-- into. uvcppclient/ is a client of one class, with one send buffer and a loop of its own, and
-- util/netlib.h is another, with two pools of send objects. sample/ has an example server,
-- uvcppclient_test/ a program that uses the client, and two headers wrap log4cplus. A
-- connection or a timer binds a method as a callback and hands it to `uvloop::AddReq`; the loop's
-- thread runs it, and it calls libuv, whose own callbacks come back to the object.
--
-- The model.
--   Base         shared names, tests on numbers, lists, counts, association lists (std::map), and
--                the type Outcome: a value, a failed assertion, or undefined behaviour
--   Memory       memset, memcpy, malloc and realloc on blocks of bytes; 64-bit words
--   SafeBuffer   util/SafeBuffer.h, util/safebuffer.cpp: one function per method (new_empty,
--                new_copy, new_from, resize, readmem in three parts, assign, swap, clear_mem)
--   Loop         libuvcpp/loop.h, libuvcpp/loop.cpp: AddReq is add_req, stop is stop, and the
--                callback of a handle is dispatch, the request's own callback, and finish
--                (Interleavings, Delivery, Capacity: any order of these; Promise: the machine
--                that the loop implements, with a bag of requests; Shutdown: the destructor
--                against the end of theadRun, one access of a thread after the other)
--   Requests     the callbacks that are bound for AddReq, and the calls of libuv
--   Connect      libuvcpp/connect.h, libuvcpp/connect.cpp: a method has its name in snake case, a
--                method that runs in the loop's thread is run_..., a libuv callback is ..._cb;
--                Runs takes them in any order
--   Timer        libuvcpp/timer.h, libuvcpp/timer.cpp, in the same way
--   Accept       libuvcpp/accept.h, libuvcpp/accept.cpp: the callback of uv_listen is on_connection
--   System       the objects of libuvcpp/ that share a loop: a request is run on its object by the
--                callback of a handle (async_callback), and uv_listen's callback calls the user's.
--                Methods has the methods and the callbacks of libuv, and Touches what they and the
--                requests do to the loop; Runs takes them in any order, with what other threads do
--                during a callback, and Completes is about such runs, with Failures, which says what each
--                request needs; Dispatch and Chained follow one request through the loop, Timers
--                and Reconnects several in a row
--   TcpClient    libuvcpp/tcpClient.h, libuvcpp/tcpClient.cpp: the connection at one address of a
--                system, with the loop of that system
--   TcpServer    libuvcpp/tcpServer.h, libuvcpp/tcpServer.cpp: the listener at one address
--   Sample       sample/sample.cpp, viualstudio2013/uvwrapper/uvwrapper/uvwrapper.cpp: the user's
--                callbacks of the example server, and the counter that two threads share
--   Uvcpp        uvcppclient/uvcpp.h, uvcppclient/uvcpp.cpp: the methods that any thread calls,
--                among them allocSendBuf in parts (new_size, reallocated, after_realloc); the
--                callbacks of the loop's thread are in Uvcpp/Events (on_work, on_connect, ...);
--                Uvcpp/NetTest is the program uvcppclient_test/netTest.cpp
--   Netlib       util/netlib.h: methods and callbacks as net_..., the constructors as new and
--                new_at; the connection and the timers are in Netlib/Connection, the static
--                instance and the destructor in Netlib/Instance
--   Logging      util/logger.h, uvcppclient/logger.h: the constructor of tlogger as the calls that
--                it makes, and the macros LOG_TRACE to LOG_FATAL in both versions
--
-- State. An object is a record, and a method returns the new one. Pointers are addresses: an
-- object that begins with a libuv handle shares its address with it, and the objects that several
-- containers point to are held by address in a function. A section under a mutex is one step.
-- Two smart pointers of a connection can hold one handle: what each deletes is listed, and a second
-- delete of the same handle is undefined behaviour. A callback that goes through a static pointer to
-- an object takes that object, or none, as an argument.
-- Callbacks of the user are parameters, or, where they come last, what happens next.
--
-- libuv is outside. Its calls are listed in the order in which they are made, what they return is
-- an argument, and a callback is a function that the environment calls: only for a handle that
-- uv_async_send has signalled, and with the handle of its request. The allocator is a parameter
-- with the laws of the C standard. log4cplus is a parameter too: its macros, with the law that an
-- operand is evaluated and logged exactly if the level is on.
--
-- Bounds. `unsigned long` and size_t have 64 bits, as in the Linux build, and `unsigned int` has
-- 32. There is no fuel but one: the constructors of uvloop and netlibuv loop by recursion on the
-- rounds left, as do those of the test program, and the loop over the work items of uvcpp by
-- recursion on the items. The destructor of netlibuv, which can call itself, takes a bound on the
-- depth of these calls; the theorem about it says for every depth whether it is enough.
--
-- Not modelled: the copy of libuv's headers under include/, which is another project's library; and
-- what the samples print. Spurious wake-ups of the condition variable are left out. Of
-- uvcppclient/uvcpp.cpp and util/netlib.h the loop that their threads run is libuv's; what it calls
-- is modelled.
pub mod Base
pub mod Memory
pub mod SafeBuffer
pub mod Logging
pub mod Loop
pub mod Requests
pub mod Connect
pub mod Timer
pub mod Uvcpp
pub mod Netlib
pub mod Accept
pub mod System
pub mod TcpClient
pub mod TcpServer
pub mod Sample
