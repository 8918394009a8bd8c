-- ===== src/Lib.antt =====
-- A file server and its client over an encrypted and authenticated channel: a model of the program and
-- the theorems that make it correct.
--
-- The program. `src/common` has the parts that both ends share. A `Connection` sends and receives over
-- TCP. A `Crypto` turns each message into a `Rocket` (tag, size, sequence number), a `SpaceCraft` (tag,
-- sequence number) and the encrypted payload, and hands received plaintext out in pieces. A `CertManager`
-- holds an end's certificate and key and checks the peer's certificate, `RSACrypto` signs and seals, and
-- an `RSASeal` carries a key in the handshake. The server (`src/server`) makes a session for each
-- connection: a handshake, then commands from the channel on the files of one directory. The client
-- (`src/client`) makes the other half of the handshake and sends the commands that the user types.
--
-- The files of this library.
--   Base: lists over native numbers, and `Outcome`: a value, an exception, or a run that C++ does not
--     define. Stateful code is a function from a state to an outcome; an exception keeps the state.
--   Exception: src/common/exception.h, and which catch clause takes which class. Protocol:
--     src/common/protocol.h and protocol.cpp.
--   Word: uint32_t and its bytes, on a little-endian host. Key: src/common/key.cpp, and what a C call
--     reads of a key's string. Random, Nonce: src/common/cybrand.cpp and nonce.cpp.
--   Connection: src/common/connection.cpp, `Connection::send` and `recv`, of bytes and of strings, and the
--     constructor that connects. The socket is a parameter; Connection/Stream says what TCP does
--     (`Stream`), Connection/Pipe is a socket in memory.
--   Openssl: the library's HMAC and cipher as a parameter, with its documented behaviour (`IsSound`).
--   Rocket, SpaceCraft, Crypto: the classes of the same names. `Link` is what a call of `Crypto::send` or
--     `Crypto::recv` works on: the socket, the `Crypto`, and the static variables of `Crypto::recv`
--     (`Statics`). `Crypto::recv` is `feed` and `copy_out`. Crypto/Wire, Receive, Pending, Channel, Marks,
--     Session, UpTo, Whole, Accepted, Sharing and Reflection are its proofs.
--   RsaSeal, RsaCrypto: src/common/rsaseal.cpp and rsacrypto.cpp. Certificate: src/common/certificate.cpp
--     and rsakey.cpp. CertManager: src/common/certmanager.cpp. OpenSSL's part of each is a parameter.
--   Text: what the program uses of string streams.
--   Handshake: the two functions `handshake`, in Handshake/Server (src/server/client.cpp) and
--     Handshake/Client (src/client/main.cpp). Authentic and AuthenticClient say what either end knows after
--     it; Setup, Script, ClientRun, ServerRun and Agreement are a run of two honest ends.
--   Server: `Client` of src/server/client.cpp, each command and the loop of `execute`, over a file system
--     that is a parameter: `read` is what a path gives that can be opened, `tell` the answer of `tellg` at
--     its end. Execute: `Client::execute` with the handshake and the catch clauses.
--   Listener: src/server/server.cpp and `main` of src/server/main.cpp. `Inet` has the sockets, and whether
--     the system starts a thread.
--   ClientMain: src/client/main.cpp. `send_file` and `recv_response` are functions of a link; the commands
--     and the loop over the input are in ClientMain/Program, over the globals and the local files, and
--     `main` in ClientMain/Main. `Local` has the local files, with `reopen` for the second `open` of a
--     file, in `send_file`.
--   Transfer: both programs at once. `InSession` (Transfer/Joint) says that the two ends agree on keys,
--     ciphers and numbers and have nothing unread; an `Exchange` is one command of the client and one round
--     of the server, each on the bytes that the other sends, after which they are in one session again.
--     Exchange/Get, Put and List are RETR, STOR and LIST, Exchange/Status the commands that one status
--     answers.
--     Transfer/Conversation has the abstract specification, `perform` on what can be read at each path of
--     the two disks, and the proof that a row of lines typed at the client implements it.
--   Tests: the theorems on concrete data.
--
-- Bounds. A sequence number wraps at 2 ^ 32 and lengths are taken modulo 2 ^ 32 as the code does. The
-- loops of `cmd_stor`, `send_file`, `recv_file` and `recv_list` run on fuel equal to the size that they
-- count to, which is enough since each round moves at least one byte (`Crypto::recv` returns no empty
-- fragment); this is part of the theorems about them, for `recv_list` where the listing comes in one
-- message, as `cmd_list` sends it. The loop of `execute` runs for any given number of commands, and that
-- of the server's `main` for any given number of connections.
--
-- Not modelled: the listing of local files, the help text, the progress bar and messages on the terminal;
-- the destructors; running out of memory, so that nothing throws `bad_alloc`, though `Exception` has it and
-- the clause of `execute` that takes it; the threads of the server side by side, of which only the start is
-- recorded; debug output. The statics of `Crypto::recv` pass from one session to another at whole calls
-- of `recv`; interleavings inside a call are not modelled. The theorems on exchanges give the bytes that
-- each end sends when the other's arrive; they do not model the waiting in between.
pub mod Exception
pub mod Base
pub mod Word
pub mod Protocol
pub mod Connection
pub mod Openssl
pub mod Key
pub mod Rocket
pub mod SpaceCraft
pub mod Crypto
pub mod RsaSeal
pub mod Text
pub mod CertManager
pub mod ClientMain
pub mod Random
pub mod Listener
pub mod Nonce
pub mod Certificate
pub mod RsaCrypto
pub mod Handshake
pub mod Execute
pub mod Server
pub mod Transfer
pub mod Tests
