-- ===== src/Lib.antt =====
-- xzmjx_rpc, an RPC framework over TCP: its byte arrays, its serializer, its messages, its service
-- registry and the method calls of its server.
--
-- A host serializes arguments into a `ByteArray`, puts the bytes into a `Protocol` message with a
-- twenty-byte header and sends it; the other host decodes the header, reads the payload back and
-- calls the function registered, or looks a service up or enters it in the registry.
--
-- - `Prelude`: names of the library, the Boolean tests, lists and bits over the native ℕ, and
--   `Outcome`, how a C++ call ends: with a value, with an exception or with undefined behaviour.
-- - `ByteArray` is utils/byte_array.h and utils/byte_array.cpp. `ByteArray/Defs` has `addCapacity`,
--   `write`, `read`, `clear`; `ByteArray/Access` has `setPosition`, the `read` at a position,
--   `toString`, `getReadBuffers`, `getWriteBuffers`, `writeToFile` and `readFromFile`. The linked
--   list of nodes is an array of `nodes` chunks of `base_size` bytes in one address space `cells`:
--   node `i` holds the cells from `i * base_size` on, `m_cur` is the number of a node or none, a
--   null pointer. `View` has the invariant and the bytes that an array stands for. `Write`, `Room`,
--   `Refine`, `Read`, `Cursor` and `Buffers` are about any number of nodes; `Tape` and `Rewind` are
--   about data inside the first node, where codecs are treated.
-- - `Codec` is utils/endian_cast.h and the integers, floating-point numbers and strings of
--   utils/byte_array.cpp. The byte order of the host is a parameter, `native`.
-- - `Serializer` is rpc/serializer.h for bool, the integers, float, double, strings, vector, list,
--   tuple and, in `Serializer/Sets`, set. A type is an element of `Ty`, a value of it an element of
--   `Value t`.
-- - `Rpc/Protocol` is rpc/protocol.h, rpc/protocol.cpp and rpc/context.h; `Rpc/Registry` is
--   rpc/rpc_service_registry.cpp; `Rpc/Server` is `internal_method_impl` of rpc/rpc_server.h and
--   `handleMethodCall` of rpc/rpc_server.cpp with the switch of its `handleClient`. `Rpc/Session`
--   is rpc/rpc_session.cpp; `Rpc/Session/Carry` takes a message from one session to another, over a
--   `Link`, of which `IsReliable` says what is relied on. `Rpc/Client` is rpc/rpc_client.h and
--   rpc/rpc_client.cpp: a step is what a coroutine does between two waits, and the relation `Step`
--   of `Rpc/Client/Laws` lets them interleave in any way. `Rpc/Provider` is what `RpcServer` does
--   at a registry, and `Rpc/Call` takes a call through client, sessions and server.
-- - `Net/Stream` is `SocketStream` on byte arrays (net/socketstream.cpp), the calls of
--   net/socket.cpp that it makes, and the loops of net/stream.cpp. The system's `recvmsg` and
--   `sendmsg` are parameters on a state of the connection; `Sends` says what is relied on.
--   `Net/Socket` is net/socket.h and net/socket.cpp by what each operation does to the descriptor:
--   a `SysCall` opens, uses or closes one, and `Net/Socket/Safety` takes a socket through any
--   operations; `newSock` and `init`, which are public, come there while it holds no descriptor.
--   `Net/TcpServer` is `bind`, `start` and `stop` of net/tcp_server.cpp. `Net/Address` is
--   net/address.h and net/address.cpp: the structures of the system field by field, whose bytes are
--   compared, with `getaddrinfo` and `inet_pton` as parameters.
-- - `Utils/Config` is `ConfigVar` and `Config` of utils/config.h and utils/config.cpp, with the
--   conversions from text as parameters, and `Utils/Config/Cast` those conversions, `LexicalCast`,
--   over boost and yaml-cpp: `IsYaml` is what yaml-cpp documents, and `IsPlain` a condition on each
--   scalar; `Utils/Env` is utils/env.cpp; `Utils/Dict` stands for the maps of the standard library
--   with strings as keys.
-- - `Examples` has concrete runs.
--
-- Numbers of `size_t` are natural numbers with their wrap-around modulo 2 ^ 64 written out where a
-- difference is taken; results on the array ask for sizes below 2 ^ 63, which any allocator keeps.
-- `addCapacity` computes the number of nodes with `double`, and the model with integers, which is
-- the same below 2 ^ 53. Loops run on fuel, and `stuck` is what a loop without fuel gives: a round
-- for each byte, and one for each node in the scatter/gather lists, is enough.
-- A new array's memory is a parameter, `memory`, since `new char[]` does not initialise it.
-- Results on codecs and messages ask for fewer bytes than a node has, 4096. No allocator has room for
-- 2 ^ 63 bytes: `encode`, whose payload length wraps round, throws `bad_alloc` for as many.
--
-- Not modelled: what the TCP server accepts (net/tcp_server.cpp), the timers of
-- `RpcServer::handleClient`, the coroutine scheduler, timers and locks, and the log. In the
-- serializer, unordered sets, whose order is the library's, and maps, whose `operator<<` does not
-- compile.
pub mod Prelude
pub mod ByteArray
pub mod Codec
pub mod Serializer
pub mod Rpc
pub mod Utils
pub mod Net
pub mod Examples
