-- ===== src/Lib.antt =====
-- Verification of the C servers of network-exercises, under c/source.
--
-- The program is a set of small TCP servers over epoll. Each server receives the bytes of a
-- connection into a byte queue (utils/queue.c, by recv_request of utils/utils.c), handles the
-- complete requests in it, and sends the answers by sendall of utils/sockets.c. The server
-- means-to-an-end stores price samples and answers queries about them; prime-time answers whether
-- numbers are prime; smoke-test echoes; budget-chat passes messages between named clients.
--
-- Which file models which part:
--   Queue        c/source/utils/queue.c, queue.h: queue_init is Queue.init, queue_push Queue.push,
--                and so on. Pointers into the buffer are offsets from its start.
--   Prices       c/source/means-to-an-end/asset-prices.c, asset-prices.h
--   Messages     c/source/means-to-an-end/messages.c, messages.h: message_parse
--   Sessions     c/source/means-to-an-end/client-session.c, client-session.h: the list of sessions,
--                over the doubly linked list on a heap of Links
--   PrimeTime    c/source/prime-time/is-prime-request.c, is-prime-request.h, and handle_request of
--                c/source/prime-time/main.c. json-c is the record PrimeTime.Json.Json.
--   Startup      create_server of c/source/utils/sockets.c, init_logs of c/source/utils/utils.c, and
--                what the four mains do before their loops (Startup.set_up). What the system returns is
--                an argument, and the log library is the record Startup.Log.
--   Rounds       the loops of the four mains over what epoll_wait returns, for any server: a round of
--                one event or more, an error, or the timeout, which is a round of none
--   PriceServer  c/source/means-to-an-end/main.c: PriceServer.Main.main is the whole of it,
--                PriceServer.handle_event what the loop does for an event, and PriceServer.Loop.Reach
--                the states that it reaches; PriceServer.Isolation is about each connection alone
--   PrimeServer  c/source/prime-time/main.c, with PrimeServer.Main.main
--   Poll         c/source/utils/epoll.c, on the list of watched descriptors. What accept and epoll_ctl
--                return are arguments.
--   Chat         c/source/budget-chat/client.c, client.h; Chat.Request has the checks of a name and
--                the handlers of a request, Chat.Server and Chat.Main c/source/budget-chat/main.c.
--                isalnum is a parameter.
--   Net          recv_request of c/source/utils/utils.c and sendall of c/source/utils/sockets.c.
--                What a socket delivers, and what send answers, are arguments. Net.Event is an event
--                of a server, and Net.Streams what each connection sends and gets over many.
--   Echo         c/source/smoke-test/main.c: Echo.handle_event is what is done for a connection that is
--                ready, Echo.Main.main the whole
--   Run, Memory  what a call comes to (a result, an abort by assert, undefined behaviour, fuel that
--                ran out), the allocator as a parameter, memcpy with its bounds.
--   Common       tests on numbers, lists, signed integers and machine words.
-- The state of a component is a record with the fields of its struct; a function that changes it
-- returns the new record. Log calls are left out. The proofs stand in the modules below each
-- component, tests and theorems at concrete inputs in those called Tests.
--
-- Bounds and fuel. size_t arithmetic wraps at 2^64. The test of the queue's room with a double is
-- exact below 2^51 bytes; capacities stay below 2^48 and contents below 2^44. The doubling loop has
-- fuel 64, which no size_t needs; the loops of the tokenizer have a unit for each byte of the
-- buffer; trial division has a unit for each number up to the one
-- tested; the loops over a list have more than it has nodes. A sum of fewer than 2^31
-- prices of 32 bits fits an int64_t.
--
-- Not modelled: what the system calls do, whose results are arguments; the limit of ten events in
-- a round, since a round of any length but none is allowed; freeing of memory beyond the pointers
-- that are set to NULL and the nodes of a list; c/source/log, a copy of a library, whose calls by
-- init_logs are a parameter and whose messages are left out; the prototypes in the header files;
-- the servers in Zig under zig/.
pub mod Common
pub mod Run
pub mod Memory
pub mod Queue
pub mod Prices
pub mod Messages
pub mod PrimeTime
pub mod Net
pub mod Links
pub mod Startup
pub mod Rounds
pub mod Sessions
pub mod Echo
pub mod Poll
pub mod PriceServer
pub mod PrimeServer
pub mod Chat
