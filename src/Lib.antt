-- ===== src/Lib.antt =====
-- myoj is an online judge on a network library of its own. A program that a user submits arrives
-- as an HTTP request on a connection that an event loop serves; a route reads its parameters, a
-- handler checks the user's authority and hands the program to the judge, which compiles it and
-- runs it in a sandbox on the tests of the problem. This library models the parts of that way
-- which decide what the user sees, and proves what they promise or, where the code does not do
-- what it means to, what it does instead.
--
-- The parts, from the socket to the verdict. Common has what they share: Boolean tests on native
-- numbers, lists measured by them, byte strings, maps, and decimal numbers (Decimal).
--   Net.Buffer is include/net/Buffer.h and src/net/Buffer.cc: the vector with its two indices; a
--   pointer is its distance from the beginning. Contents and Space say what the operations do
--   to the readable bytes, Refinement compares all calls with a plain queue.
--   Net.Connection is include/net/TcpConnection.h and src/net/TcpConnection.cc on top of it: the
--   states, the channel's events, sending and the write event (sendInLoop is send_in_loop,
--   handleWrite is handle_write, and so on), the functors in the loop. The results of write
--   and readv are inputs, and what the kernel has taken is recorded. Phase and Sending say
--   what each call keeps, Invariant has the steps, Output the bytes, Shutdown the end.
--   Net.Channel, Net.EpollPoller and Net.EventLoop are src/net/Channel.cc,
--   src/net/poller/EpollPoller.cc and src/net/EventLoop.cc: which events a channel wants and
--   which callbacks an event calls, which channels the kernel watches, and the queue of
--   functors with its wake-up. Poll is what follows epoll_wait, Registered and Calls say what
--   the poller's calls keep, Wakeups what becomes of a functor that is queued.
--   Net.LoadCounter is src/net/ThreadLoadCounter.cpp: the records of running and sleeping, and
--   the load.
--   Net.TcpServer is src/net/TcpServer.cc: the map of connections, by the names that
--   newConnection makes (Names). Net.Connector is src/net/Connector.cc, and Retry what becomes
--   of an attempt that fails.
--   Net.LoopPool is src/net/EventLoopThreadPool.cc: the choice of a loop, and Start the threads
--   that are started.
--   Timer.TimerQueue is src/timer/TimerQueue.cc and Timer.cc: the sorted set of timers and the
--   time for which the descriptor is set.
--   Http.Request and Http.Context are include/http/HttpRequest.h, include/http/HttpContext.h and
--   src/http/HttpContext.cc: the setters, and parseRequest on the real buffer. Stream relates
--   it to the bytes alone, Progress says when it stops, Roundtrip parses what a client prints.
--   Http.Response and Http.Server are src/http/HttpResponse.cc and src/http/HttpServer.cc:
--   appendToBuffer, and the callback that parses what has arrived and answers it. Framing
--   reads a response back by the parser's rules, Answers says how a sequence of requests on a
--   connection is answered, Refusals what follows a request that is refused.
--   Judge is oj/judge: common.c (Options), child.c (Child), judge.c and time.c (Verdict).
--   Sandboxed puts the child and the parent together.
--   Oj.Judger is oj/src/Judger.cpp: Prepare has Init and the compilers that Run reaches,
--   Compilers the others, Program the loop over the tests and JudgmentResult, which runs the
--   sandbox of Judge, Run the whole with Done. Answer, Verdicts and Accepted say what a test's
--   and a submission's status mean.
--   Oj.Users and Oj.Control are oj/src/UserList.cpp and oj/src/Control.cpp: authorities and
--   handlers. Guards, Permitted and Unreachable say who may do what. Oj.Routes is
--   oj/src/OJServer.cc: the table of routes (Table), what each reads of a request and which
--   handler it calls (Reads, Judging, Articles); Refusals and Permission are its theorems.
--   Oj.ProblemList is oj/src/ProblemList.cpp with the cache of problems of
--   oj/src/RedisDataBase.cpp; Services has what it relies on of the database, Redis and JSON,
--   and Cache compares reading through the cache with reading the database. Oj.Snowflake is
--   oj/src/utils/snowflake.hpp, the identifiers of tokens.
--   Logger.FixedBuffer, Logger.LogStream and Logger.AsyncLogging are
--   include/logger/FixedBuffer.h, src/logger/LogStream.cpp and src/logger/AsyncLogging.cpp:
--   formatInteger against to_string (Digits), and the buffers between the callers and the
--   writing thread, whose steps interleave with them (Kept, Rounds, Reaches).
--   Mysql.ConnectionPool is src/mysql/ConnectionPool.cc: the rounds of its threads as steps, and
--   how many connections there can be.
--
-- How state is modelled: a class is a record of its members, a member function takes the record
-- and returns it. What the operating system, a database or Redis answers is a parameter or an
-- input: a record of functions on a state of the system (Oj.Judger's Os, Judge.Child's System,
-- the Epoll of Net.EpollPoller with its documented laws, the JSON library of the routes, the
-- database and the Redis of Oj.ProblemList with their documented laws, the judge as a service of
-- the handlers), the results of write and readv, the readings of a clock. An exception or an
-- abort is none. The native numbers are unbounded; where the source's width matters it is
-- written out (rlim_t with 64 bits, int with 32).
--
-- Bounds and fuel: the loop of parseRequest gets as fuel one more than the number of readable
-- bytes, and Progress proves that it never runs out, since every round that goes on consumes a
-- byte. The loop over the tests recurses on the number of tests left. A decimal number is
-- printed with fuel one above its value, and each digit divides by ten; Decimal reads it back,
-- so that no digit is missing. The wait of the identifiers ends with the readings of the clock.
-- The digits of formatInteger are written with fuel one above the number, in the same way.
-- Everything else is structural. Other bounds are the code's or those of a type: names of
-- connections are told apart while the number fits an int and the address has at most 21
-- characters, since 64 bytes are printed into; a response's length fits 13 digits; the load
-- counter's sums fit 64 bits for windows of 32 records and 2 ^ 52 microseconds; a buffer of the
-- log has 4000000 bytes.
--
-- Not modelled: the poller over poll(2), the TCP client and the acceptor, sockets and addresses,
-- which are calls of the operating system; the queries of MongoDB and MySQL through their client
-- libraries, and the lists that pass their argument on to them; the log's files and the time in
-- front of a line; JSON (a third-party library; objects are flat here). Threads appear as steps
-- in any order (Logger.AsyncLogging, Mysql.ConnectionPool, Net.EventLoop) and not as memory
-- accesses: a data race is not modelled. What a forbidden system call does to a program and the
-- time at which the monitoring thread kills a program are the operating system's part of a
-- report.
pub mod Common
pub mod Net
pub mod Http
pub mod Judge
pub mod Oj
pub mod Logger
pub mod Mysql
pub mod Timer
