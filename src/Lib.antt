-- ===== src/Lib.antt =====
-- Distributed file storage: server nodes that keep files in a shared folder, and a client that finds,
-- fetches, uploads and removes files. Control messages are UDP datagrams, file contents go by TCP.
--
-- Parts and files. A message is a byte string in a packed struct.
-- - Prelude, Prelude/*: Boolean tests, lists over the native numbers, C strings.
-- - Words: machine words, and the system's conversions of byte order that utilities/helper.h names.
-- - Protocol, Protocol/*: protocol/communication_protocol.{h,cpp}: constants, the two structs, their
--   constructors and bytes (Message, Layout), the tests of a received message (Texts, Validation;
--   is_valid_string is from utilities/helper.cpp).
-- - Socket/*: Inet and Tcp are socket/inet_socket.{h,cpp} and socket/tcp_socket.{h,cpp}, over the table
--   of open descriptors; Udp is socket/udp_socket.cpp, with its set-up in Udp/Setup; Wire joins both
--   ends of a message.
-- - Logger: the lines of utilities/logger.cpp; boost::format is a parameter.
-- - Clock: is_timeout and get_elapsed_time_timeval of utilities/helper.h.
-- - Options: the options of server/netstore_server.cpp and client/netstore_client.cpp.
-- - Server/*: server/server.cpp. Storage and FileSet are the space counter and the set of names;
--   Request is message_validation and the choice of a handler in `run`, Run the loop; Discover,
--   FilesList, Download, Upload and Remove are the handlers, each with what is proved of it in child
--   modules; Init is the constructor, `init` and `main`. FileSystem is the interface to the disk:
--   IsLawful is its documented behaviour, whichever calls fail, and IsReliable is the condition, which
--   most theorems on files need, that besides every write to an open file arrives and the size of a
--   file can be read; FileSystem/InMemory meets both. Store is the abstract specification, a function from names to files and
--   what each request may do to it; Consistency is the agreement of the books of a node with its disk
--   and joins the handlers, the loop and the start to the Store. Threads is a step relation on a node
--   and the handlers of uploads under way (`handler` of utilities/helper.h starts them). Buffer is
--   `run` with the two variables that its threads share with it, in any order of datagrams and threads.
-- - Client/*: client/client.cpp. Requests are the messages sent, Waiting the loop over the clock that
--   surrounds each wait, Replies the loops that wait for an answer, Search the results of a search,
--   Upload the choice of a server, Transfer the two TCP transfers, Commands the loop over the lines of
--   the user, Procedures the commands from their first call to their last, Output what search and
--   discover write, Init the constructor, `init` and `main`.
-- - Exchange/*: what one program sends, the other reads; Exchange/Session runs whole commands of the
--   client against the loop of the server. Tests/*: the theorems at concrete inputs.
--
-- State. A server node is a storage, a folder and a disk (Node); the client has its search results and
-- the static buffer of inet_ntoa. A handler takes what the sockets do as a record of arguments and
-- returns the new node and the datagram sent. An exception that the code catches is a value; one that
-- ends the program is `none`. Waiting loops run over the rounds that the timeout allows.
--
-- Bounds and fuel. Words wrap at 2 ^ 64 and lengths of datagrams at 2 ^ 16. The loops that write a
-- file to a socket run on fuel, one round for each full buffer and one more; the length of the file
-- plus one is enough, which is proved. A waiting loop runs on fuel too: with a clock that advances,
-- one turn for each nanosecond of the timeout and one more are enough, which is proved. The clock
-- counts nanoseconds; the doubles of the code are exact for the timeouts of 16 bits.
--
-- Not modelled. What the programs write to the log themselves (BOOST_LOG_TRIVIAL), what
-- boost::program_options does with a command line, and random message numbers, which are arguments.
-- Server/Threads interleaves the threads of uploads and Server/Storage/Accounting the operations of a
-- storage; each handler is otherwise run to its end with no other in between, in Server/Buffer too,
-- where a thread that has begun has read its text whole: that the loop may write a message while a
-- thread reads it is not modelled.
pub mod Prelude
pub mod Words
pub mod Clock
pub mod Logger
pub mod Protocol
pub mod Socket
pub mod Wire
pub mod Options
pub mod Server
pub mod Client
pub mod Exchange
pub mod Tests
