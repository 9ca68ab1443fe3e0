-- ===== src/Lib.antt =====
-- WebQ: a virtual queue in front of a web server. A client asks TokenGen for a page; TokenGen looks
-- for the next second in which its share of the server's capacity is not used up, and sends the
-- client away with a token and a number of seconds to wait. The server behind it (TokenCheck) tells a
-- capacity estimator about each request. Several TokenGens report what comes in to a controller, which
-- divides the capacity among them; a backup controller takes over when the first one is silent and a
-- majority of the TokenGens agree.
--
-- The parts and their files, with paths from the repository's root:
-- - TokenGen/src/proxy1.c, timer.h and functions.h. TokenGen/Book: `visitor_count`, the search of
--   `main` and the tick of `log_data`. TokenGen/Reply: one turn of the loop of `main`, `get_token` and
--   `getHash`. TokenGen/Link: `readFromClient` with `sendResponse` and `writeID`. TokenGen/Outbox:
--   `writeToServer`. TokenGen/Watch: `timeout` and `timer_fn`. TokenGen/Second: `log_data`, the log file
--   and `timed_function`.
--   TokenGen/Process: the threads of `main` on the variables that they share, as steps in any order,
--   the reports of `writeToServer` among them.
-- - Controller/src/proxy1.c and timer.h. Controller: the globals and `calcSoc`. Controller/Inbox:
--   `readFromClient` with `sendID` and `writeID`. Controller/Duty: `writeToServer`, `sendToBackup`,
--   `send_heartbeat`, `changeController` and `switch_controller`. Controller/Election: `timeout`,
--   `timer_fn` and `controller`. Controller/Second: `log_data`, the log file and `timed_function`.
--   Controller/Sockets: `create_server_socket` with the texts that it logs.
-- - Exchange: both programs together, each reading the bytes that the other sends: a takeover with its
--   votes and acknowledgements, a second with its reports and shares, and one after the other.
--   Exchange/Load: what all TokenGens together send to the web server.
-- - queue.h: Queue. functions.h: Cells. parser.h of both programs: Config. `create_server_socket`:
--   Server. `readID` and the start of `main`: Startup. TokenCheck/lighttpd/src/btp.h and its calls in
--   mod_status.c: Access.
-- - Wire has the bytes of the connections, Net what the system calls answer and what the threads do to
--   the outside, Text the functions of the C library on strings, Machine the results of a run (`done`,
--   `exit` with its status, or `fault`: an access out of bounds or at NULL), Floats the floating-point
--   operations as a parameter, with the laws of IEEE 754 that bounds on the shares and on their sum
--   want, Samples the values of the tests.
--
-- How the code is read. The globals of a program are a record, and a handler is a function of it; a
-- variable under a mutex changes in one step. A loop of `readFromClient` runs on fuel, one for each
-- message, and a number of fuel above the number of messages is enough; on bytes that are no messages,
-- fuel above their number is. A loop that another thread ends, or the clock, takes a list of what it
-- finds in its rounds, with what the other threads have done since the last one; where the list ends
-- first, the loop still runs. The search for a second is structural on LIMIT. An `int` wraps at
-- 2 ^ 32 (`int32`), a `long long` at 2 ^ 64. `malloc`, `fopen`, `write`, `connect` and the clock answer
-- as parameters say, and what `malloc` returns holds any bytes.
-- HMAC-MD5 of OpenSSL is a parameter, and so is the number of bytes behind `res_hexstring` that nothing
-- uses. A string that is copied past its memory is a fault.
--
-- Not modelled: lighttpd itself, the capacity estimator (Java), the load tests and scripts, the fixed
-- texts of the HTML answer, and the debug output.
pub mod Prelude
pub mod Queue
pub mod Exchange
pub mod Floats
pub mod Cells
pub mod TokenGen
pub mod Machine
pub mod Wire
pub mod Text
pub mod Net
pub mod Controller
pub mod Config
pub mod Server
pub mod Startup
pub mod Samples
pub mod Access
