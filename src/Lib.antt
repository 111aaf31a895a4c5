-- ===== src/Lib.antt =====
-- A model of the Cpp-SocketLibrary: TCP, UDP and local sockets for Linux, over the calls of the
-- operating system.
--
-- The program's parts, from the bottom up. Paths are those of the repository.
--
--   Protocol, Errors     src/enums and src/socketexceptions: the protocol versions, the kinds of
--                        exceptions, the invalid descriptor (-1).
--   Address              src/address/SocketAddress.cpp: the union of addresses with its views
--                        (`get_port_number` is `getPortNumber`, and so on), the text of an address,
--                        name resolution. An address is a family and the 26 bytes behind it, and a
--                        view reads the bytes at its offsets; ports are stored in network order.
--   Socket               src/socket/Socket.cpp: `poll_socket` and `close` on a descriptor.
--   Stream               src/socket/ConnectionOrientedSocket.cpp: the methods that TCP and local
--                        connections share; they act on a descriptor. `Stream.Session` is a
--                        client that calls them in any order, `Stream.Lines` and
--                        `Stream.Dialogue` have the two ends of a connection, and
--                        `Stream.Memory` the memory of a caller.
--   TcpSocket            src/socket/TCPSocket.cpp: constructors, `connect_loop`, copies, `close`.
--                        `TcpSocket.Copies` is a program whose objects share descriptors.
--   TcpServer            src/serversocket/TCPServerSocket.cpp: the constructor, in the order of the
--                        source (`construct_socket`, `first_address`, `open_socket`,
--                        `bind_and_listen`, `start_listening`), and `accept`;
--                        `TcpServer.Lifecycle` is a server with a client, closed again, and
--                        `TcpServer.Program` a program with a server from start to end.
--   ServerSocket         src/serversocket/ServerSocket.h: the abstract class of servers, with the
--                        class Socket of src/socket/Socket.h, as records of their operations; the
--                        promise that an implementation keeps, and programs that accept and
--                        close connections in any order. `TcpServer.Contract` and
--                        `Ipc.Server.Contract` are the two implementations.
--   ConnectionOriented   src/socket/ConnectionOrientedSocket.h: the abstract class as a record, the
--                        calls of a program on an object of it, its two implementations in
--                        `ConnectionOriented.Classes`, and connections that were closed.
--   Sharing              copy constructors and assignment operators of any class of sockets:
--                        programs with several objects that hold the same descriptor.
--   ConnectionLess       src/socket/ConnectionLessSocket.h: the abstract class as a record of its
--                        operations, the promise that an implementation keeps, and the traces of
--                        a caller of it. `UdpSocket.Contract` and `Ipc.Datagrams.Contract` are the
--                        two implementations; `Exchange` has messages from one socket to another,
--                        `Sending` what both do to send, `Orderly` programs that close a
--                        socket before binding it again.
--   UdpSocket, Datagram  src/socket/UDPSocket.cpp: `bind`, `ready`, `send_to` and `receive_from`,
--                        with the variants by host name and with strings; Datagram cuts the
--                        received string, as UDP and local datagram sockets do.
--   Ipc                  src/ipc: `SocketPath` (the address of a path), `Channel`
--                        (StreamIPCSocket), `Server` and `Accept` (IPCServerSocket) and
--                        `Datagrams` (DatagramIPCSocket).
--
-- An object is a record of its fields, and a getter returns a field. A method that changes its
-- object returns the new one; where it can throw after changing it (`bind` of datagram sockets),
-- it runs over the object and the outside, so that an exception carries the object it leaves
-- behind.
--
-- The operating system is a parameter: `System.Os` lists the calls over an unknown state `W`, with
-- any result. A method is a run (`System.Run`): it returns a value and a state, throws an
-- exception in a state, or is out of fuel. What calls are documented to do are hypotheses of the
-- theorems that need it, in System/Laws: `recv` counts the bytes that it writes and writes no more
-- than it is asked for, a stream hands out its bytes in order, each once; `socket` and `accept`
-- open a descriptor, `close` closes one, and no other call changes the table of open descriptors;
-- a blocking `send` on a connection that stays up takes the whole message and delivers it
-- (`Delivers`), or does so where the message finds room on its way (`IsEnd`); a network without
-- loss keeps datagrams in order, up to a limit of their size above which `sendto` fails; `send`
-- and `recv` fail on the invalid descriptor; `remove` removes a file where it answers 0;
-- `inet_ntop` leaves room for its terminator. `InvalidRefused` (UdpSocket/Bind), `ReuseWorks`
-- (TcpServer/Open) and `NamesAccepted` (TcpServer/Contract) are hypotheses of single theorems. A
-- callback is any run, with what a theorem asks of it as a hypothesis (`IsTame`, `IsGentle`,
-- `SendsSafely`). `Tests.Machine` is a small system that meets the laws.
--
-- Numbers. A descriptor, a result code, a flag and a timeout are integers. `short` ports wrap at
-- 2 ^ 16, an `unsigned int` amount at 2 ^ 32 and a `size_t` at 2 ^ 64, and the conversion of a
-- length to `int` and back is written out (`Stream.recv_length`). A string is a list of bytes, and
-- a C string ends before its first NUL (`until_nul`).
--
-- Loops. The lists of addresses are walked by recursion. `receiveAmount` has as many rounds as it
-- is asked for bytes, since each but the last receives one; `receiveToDelimiter` and `receiveAll`
-- take fuel, which is enough when it is larger than the number of bytes to come, by one and by two.
--
-- Not modelled: the texts of exceptions and `getErrorCode`; the code for Windows; `errno`; other
-- threads that use the same object; the tests. `getaddrinfo` that fills no list is an absent list.
mod Prelude
pub mod Errors
pub mod Protocol
pub mod System
pub mod Address
pub mod Socket
pub mod Stream
pub mod TcpSocket
pub mod TcpServer
pub mod ServerSocket
pub mod ConnectionOriented
pub mod Sharing
pub mod Datagram
pub mod ConnectionLess
pub mod UdpSocket
pub mod Ipc
mod Tests
