-- ===== src/Lib.antt =====
-- A model of the firmware of the Nuki bridge (nRF52840, Zephyr), which pairs with a Nuki Smart Lock over
-- Bluetooth LE, sends it encrypted commands, and offers them to a Loxone system over a UART.
--
-- Parts, and the files that model them:
--   Base      lists as C arrays, tests, results with errno codes, bit operations.
--   Zephyr    the byte-order functions of Zephyr, a parameter with its documented laws.
--   Crypto    src/nuki_crypto.c. Words: 32-bit arithmetic. Salsa: `salsa_core`, `core_salsa20`,
--             `core_hsalsa20`, `nuki_crypto_kdf1`. Stream: `xsalsa20_xor`. Poly1305: `poly1305`,
--             with its arithmetic in the modules below it (Value, Rows, Product, Freeze, Mac, Tag).
--             Secretbox: `nuki_crypto_e1` (`e1`), `nuki_crypto_d1` (`d1`). Crc: `nuki_crc16`.
--   Protocol  src/nuki_protocol.c and its header. Commands: the constants. Frame: the frame builders and
--             parsers. State: `nuki_keyturner_state_parse`. Names: the texts for states.
--   Uart      src/nuki_uart_proto.c. Rx: the interrupt handler `serial_cb`, a state machine over the bytes
--             received. Api: the functions of src/nuki_app.h that it calls, a record. Tx: the handlers and
--             `dispatch_frame`. Serial: the interrupt handler and the thread side by side, with Zephyr's message
--             queue as a parameter.
--   Transport src/nuki_transport.c, each function by its name without the prefix. Buffer: the receive
--             buffer as a queue. Wait, Fragments, Arrived: `nuki_transport_wait_min` over a schedule of events.
--   Link      the calling thread: transport, schedule, random bytes and what was sent, as the state of a
--             small monad. Contract, here and in Command and Pairing: what every step has, every command
--             has; Keeps (the shape of the receive buffer) and Timely (how long a command waits) are such.
--             Exchange: a request and the answer to it, in pieces.
--   Command   src/nuki_command.c, each function by its name without the prefix. Steps, Receive, RoundTrip:
--             `recv_encrypted` after `send_encrypted`. Authentic: what a success of `recv_encrypted` says
--             of the bytes that came. Drain, Completed: the loop of `drain_until_complete`, lock actions.
--             Message, Concludes, Answered, Reported: the commands over a lock that answers.
--   Pairing   src/nuki_pairing.c: `send_plain`, `recv_plain` and `nuki_pairing_run` (`run`, in five parts by
--             the numbers of its comments). Verified: what a completed handshake has checked. Message,
--             Fields, Answers, Authorized, Completes: the handshake with a lock that keeps to it. Nonce:
--             where its nonce comes from. Its calls of X25519 and HMAC-SHA256 go through Crypto.Psa, the
--             wrappers of src/nuki_crypto.c around PSA Crypto, which is a parameter.
--   Storage   src/nuki_storage.c, each function by its name without the prefix; the calls of the settings
--             subsystem are kept as a list, and its answers, its names and the layout of the struct are
--             parameters. Restart: what a restart loads.
--   App       src/nuki_app.c: the variables of the file, with the saved pairing, as the record `App`.
--             Adverts: the tests on advertisements, with Offers below it. Connect: `callback`, all that the
--             Bluetooth stack and the timer call, `connect_to_lock` and `disconnect_from_lock`. Operations:
--             `nuki_app_get_state`, `nuki_app_lock_action`, `nuki_app_calibrate`, `nuki_app_pair`, the
--             cache and the questions, over a `World`: the application and what is still to come. Poller: the
--             polling thread, with Retries and Refreshed. Bridge: these operations as the `AppApi` of Uart.
--             Below them: Reports, Held and Shape (the end of an attempt, a connection that stays, what
--             callbacks keep), Stable (what every step keeps, an operation keeps), Peers, Cache, Confirmed,
--             Paired, Invariant, Served, Timely, and Reached, Fulfilled, Introduced (a lock that is in
--             reach).
--   Shell     src/nuki_shell.c, each function by its name; a command gives its result, its lines and the
--             application. Agrees: against the serial protocol.
--   Startup   src/main.c and `nuki_uart_proto_init`: what runs after the start.
--
-- Interaction: Uart.Rx hands requests to Uart.Tx through a queue of Zephyr's, and a frame that finds the
-- queue full is lost. Alone, the receiver keeps the list of requests handed over; Uart.Serial runs the two
-- in any order, with the queue between them. Command seals what Protocol.Frame builds with Crypto.Secretbox,
-- and writes and waits through Link, which calls Transport; Pairing does so with plain frames. Crypto works
-- on lists of bytes and knows no other part; Protocol uses the check sum of Crypto. App connects, runs a
-- Command or a Pairing over the transport that a callback set up, disconnects, and fills the cache; Uart.Tx
-- calls it through Uart.Api, which App.Bridge fills in.
--
-- Conventions: a number is a native ℕ. A C array is a list and a read out of bounds gives 0; the theorems
-- carry the lengths and byte ranges under which none happens. A 32-bit sum keeps its `% 2 ^ 32`. A function
-- that returns an int is a `Result`, with the errno as a value. Every loop of the source but that of
-- `nuki_transport_wait_min` is bounded by a number it computes before it starts, which is the argument of a
-- structural recursion, so no fuel is guessed. `xsalsa20_xor` recurses on the number of 64-byte blocks,
-- `serial_cb` on the list of bytes received. A wait recurses on the schedule: the list of what the other
-- threads do while the caller sleeps, in order (indications, the answer to a write, a time limit that runs
-- out). A schedule that ends leaves the time limit to run out, as it does for a lock that is silent. An
-- indication of a schedule stands for all that arrive between two looks at the buffer. The application
-- waits likewise over a list of moments: a callback, the turn of the calling thread, the end of the longest
-- time it waits. What the Bluetooth stack answers to a call is part of the callback that makes the call, or
-- a list of answers in the `World`. The operation lock is no state: operations follow one another, while
-- callbacks come at any moment.
--
-- Not modelled: the log lines and hex dumps; the text that `main` prints; the kernel's mutexes and semaphores,
-- but for what a wait comes to; the MTU exchange, whose result the code does not look at; the stacks and
-- priorities of the threads; an indication that arrives between two operations, when no command waits and the
-- next connection sets the transport up again.
pub mod App
pub mod Base
pub mod Command
pub mod Crypto
pub mod Link
pub mod Pairing
pub mod Protocol
pub mod Shell
pub mod Startup
pub mod Storage
pub mod Transport
pub mod Uart
pub mod Zephyr
