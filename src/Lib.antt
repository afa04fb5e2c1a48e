-- ===== src/Lib.antt =====
-- A remote procedure call library in C++: servers register procedures with a binder, clients ask the
-- binder for a server and call it. This library models its logic and proves what makes it correct.
--
-- The parts, and the files that model them (paths in the repository are from its root):
--
-- - Arg: arg.h and arg.cc. An argument type is an `int` with a direction (two top bits), a type and an
--   array length. `getArgType` is `get_arg_type`, `numberOfArgs` is `number_of_args`, and so on.
-- - Signature: signature.h and signature.cc. `signature_of_arg_types` keeps its name.
-- - Message: message.h and message.cc. A `RawMessage` is the list of its bytes with its type;
--   Message/Memory is its constructors, assignment and destructor on blocks of memory.
-- - Wire: protocol_macros.h and protocol_macros.cc. Wire/Cursor is the reading position (`next_pos`)
--   as explicit state, Wire/Fields how readers of single fields compose.
-- - Messages: locate_messages, register_messages, execute_messages and terminate_messages (.h, .cc).
--   `Serializer<Register>::serialize` is `serialize_register`, and so on; MAKE_STATUS_MESSAGE is
--   Messages/Status, for all of its instances at once.
-- - Binder: binder.cc. Binder/Server is `ServerData` with its order, Binder/Keyed std::set and std::map
--   of servers, Binder/Database the class `BinderDatabase`: `register_server`, `locate_server` and
--   `remove_if_server` are `handleRegister` and `handleLocate` behind the reading of the message, and
--   `removeIfServer`. Binder/Terminating is `handleTerminate`; Binder/Loop the loop in `main` over the
--   clients with data, Binder/Process `main` as a whole with its TcpServer (`binder_main`);
--   Binder/Validity the invariant of the database; Binder/History whole sequences of calls;
--   Binder/Directory what the database promises, without timestamps and sets, and Binder/Refinement and
--   Binder/Promise the relation of the two; Binder/Service the same for `main`: a loop over a directory
--   that takes the same messages; Binder/Process/Total says when the loop of `main` throws nothing.
-- - TcpSocket: tcp_socket.cc. `send` and `recv` are `tcp_send` and `tcp_recv`, over the results of the
--   kernel's calls.
-- - TcpServer: tcp_server.cc, the map of connections with the fd_set; `acceptIfAny` is `accept_if_any`,
--   and so on. TcpServer/Creating is the constructor, with the descriptors that it opens and closes.
-- - TcpClient: tcp_client.cc, `connect_create_socket`.
-- - Libserver: libserver.cc, `handle_execute` and the loop of `serve_client_thread`; Libserver/Threads
--   is `serve` with its threads, as a relation between states: where each thread stands, and the two
--   variables that they share.
-- - Rpc: rpc.cc. `rpcRegister`, `rpcCall` and `rpcTerminate` are `rpc_register`, `rpc_call` and
--   `rpc_terminate`; Rpc/Peers puts the models of the binder and of a server at the other ends.
--   Rpc/Starting is `connect_to_binder`, `rpcInit` and `rpcExecute`.
-- - ServerFunctions: the sample server and client. server_functions.c keeps its names (`f0`, `f3`);
--   ServerFunctions/Skeletons is server_function_skels.c, ServerFunctions/Program `main` of server.c, and
--   ServerFunctions/Client `main` of client1.c.
--   Floating point numbers are patterns of IEEE 754; ServerFunctions/Printing is `f2`.
-- - ExamplePrograms: server_example.cc and client_example.cc, and the two against each other.
-- - Common: shared helpers. Common/Fallible is what a C++ expression comes to: a value, an exception
--   that nothing catches, or no meaning; Common/Ints are machine integers.
-- - Examples: tests, and the results at concrete inputs.
--
-- A message goes through Messages to bytes and back, the binder's loop turns its argument types into a
-- signature, and the database answers; Binder/Requests puts these together, and Rpc/Calling a whole
-- call: client, binder and server. ServerFunctions/Results puts the sample programs at its ends.
--
-- Conventions. An `int` is its bit pattern, a number below 2 ^ 32; sums wrap. The sizes of types are
-- those of an LP64 machine with a signed `char`. A string or buffer is the list of its bytes, and
-- its length is an `int` in the code, so the results on messages ask for fewer than 2 ^ 31 bytes.
-- The clock of the binder is an unsigned int that wraps; the results on the database ask that it
-- does not. A read beyond an object, and the use of a variable without a value, is `fault
-- undefined`; an assert that fails is `fault aborted`. No function needs fuel: each recurses on a
-- list or a number that it consumes.
--
-- What stands outside: what the kernel's sockets do is a parameter of the functions that use them
-- (`Reply`, `Received`, `Sent`, `Exchange`, `Network`, `KernelSend`, `KernelRecv`, `RoundInput`,
-- `ListenerInput`, `Connecting`); so are the skeletons of a server, which may change the blocks they are
-- given and nothing else. A `recv` that reads a length below -1 throws `bad_alloc`: `Traffic` puts an
-- `Outcome` around what the binder receives from a client, and `Reply` has a case for it (`overflows`);
-- an `Exchange` of rpc.cc leaves it out, and `Reply` has no case for a length that has no meaning (-1,
-- 2 ^ 31 - 1, or one read in part). An fd_set has bits for the descriptors below FD_SETSIZE; beyond,
-- `accept_if_any` is undefined, and the listener is taken to be below. The order of the keys in the
-- maps from signatures is not modelled, since no code reads it. A pointer to a socket is a number.
--
-- Not modelled: the texts of errors (error.h), the printing of the binder's address, a listener's
-- thread that cannot be created, the texts that the programs print around values, and the tests.
pub mod Common
pub mod Arg
pub mod Wire
pub mod Message
pub mod Messages
pub mod Signature
pub mod Binder
pub mod Libserver
pub mod TcpSocket
pub mod TcpServer
pub mod TcpClient
pub mod Rpc
pub mod ServerFunctions
pub mod ExamplePrograms
mod Examples
