-- ===== src/Lib.antt =====
-- fdcpp: C++ classes over the file descriptors of Linux.
--
-- The library has three layers, and each has its modules here. Paths are those under src/.
--
--   util/throw.cpp, the texts and codes of the exceptions: Throw.
--   fds/, one class per kind of descriptor, whose methods are a system call and the check of what it
--   returned: Descriptor (fds/base: construction, moves, the destructor, read and write), Socket
--   (fds/socket.cpp; its options and the calls that store an address are Socket/Options), Timerfd,
--   Eventfd, Signalfd, Inotify, Memfd, File and Epoll (fds/timerfd.cpp, eventfd.cpp, signalfd.cpp,
--   inotify.cpp, memfd.cpp, file.cpp and epoll.cpp); Transfer has the loops that read or write a
--   whole object, and Handle the calls that all these classes have in the same form.
--   easy/, what is built on them: BufferedSocket (easy/buffered_socket.cpp: two buffers over a stream
--   socket, with typed output and input), Timer (easy/timer.cpp: a timer with phases), EasySocket
--   (easy/unix_socket.cpp, tcp_socket.cpp, udp_socket.cpp: sockets ready for use), FdPass
--   (easy/fdpass.hpp and fdpass.cpp: descriptors sent over a socket; FdPass/Object is the class) and
--   Mmap (easy/mmap.cpp: a mapping with an owner).
--
-- Ownership is about all objects of a program together: which of them holds which open number.
--
-- A function of the source is a definition of the same name in the module of its class. Overloads
-- and operators have a name for their type: write_u32 is operator<<(uint32_t), read_string is
-- operator>>(std::string &), and move_assign is operator=(descriptor &&). A method is a command
-- (Effect.Cmd) from the state to a run: it ends normally with a value, or by a C++ exception, which
-- keeps the state it was thrown in; it meets undefined behaviour (an access out of bounds); or it is
-- out of the fuel that bounds a loop. Effect.Ends says of a run how it ends, so a theorem with Ends
-- excludes the last two; Effect.Kept has what holds at the normal end, or at both ends, and
-- Effect.Quiet that a run has not ended by an exception (Throws: by one of some kind only). Every
-- access that buffered_socket makes to its block is guarded: outside the block it is undefined
-- behaviour (in_block and accessing in BufferedSocket). A class with data members has a record for
-- them, and its methods run on the record together with the system.
--
-- The system is a parameter: Os, SocketOs, TimerOs and their like are records of its calls over any
-- state W. What theorems need of it are records in the words of the manual pages: SendLaw and
-- RecvLaw (Socket/Stream: a stream of bytes of which a call moves some prefix), Waits (MSG_WAITALL),
-- Answers (BufferedSocket/Returning: calls that do not fail), Apart (BufferedSocket/Apart) and
-- Connection (BufferedSocket/Spec: all that a stream socket promises), OptionLaw (Socket/Options: an
-- option that keeps what it is set to), SetLaw (Timer/Kernel: timerfd_settime), ReadLaw
-- (Transfer/Whole: read), EventLaw (Eventfd/Counter: eventfd), SendMsgLaw and RecvMsgLaw
-- (FdPass/Kernel: messages that carry files), RecvOpens (FdPass/Leaks: the numbers that they open),
-- ConnectLaw (FdPass/Connecting: connect), BindLaw (FdPass/Binding: bind and unlink), EpollLaw
-- (Epoll/Kernel: epoll_ctl and epoll_wait), Opens and CloseLaw (Ownership: the numbers that are
-- open), ClassLaw (Ownership/Classes: the calls that open), SocketLaw (EasySocket/Leaks) and
-- AddressLaw (EasySocket/Addresses: where a socket leads). Loopback and the modules of tests have
-- small systems that meet them. Byte orders and the layout of numbers are Endian; the host's order
-- is a parameter of each function that swaps or stores bytes. So are std::to_string, where a message
-- has a number, unlink, and the content of new memory.
--
-- Machine integers are natural numbers with their wrap written out: add_size and sub_size
-- (Base/Int) are those of a 64-bit size_t, and signed values go through two's complement (Endian).
-- A buffer is the list of all its bytes, those beyond the valid ones too, so a stale byte can be
-- read as in the source. What the move constructor of buffered_socket leaves of the old object is a
-- record of its own (BufferedSocket/Objects, MovedFrom), since its two pointers no longer point
-- into one block.
--
-- Loops have fuel. send_all has one round more than there are bytes, since every send of a
-- non-empty buffer takes one byte at least; Output shows that this is enough. send of FdPass has
-- one round for each descriptor, and every round takes at least one. recv of FdPass waits for
-- messages of a peer, so the number of rounds is an argument, and as many rounds as files are
-- enough, if there are fewer than 2 ^ 63: a count that does not fit a long is undefined behaviour.
-- The loops of Transfer have their fuel as an argument too: as many rounds as the object has bytes
-- are enough.
--
-- BufferedSocket has child modules: Invariant (what a valid object is), Objects (construction, moves
-- and the destructor), Memory, Output, Appending, Writing, Indices, Draining, Receiving, Reading,
-- Values, Codec, Taking, Strings and Underrun, from the memory operations up to the streams;
-- Sequence has many writes and one flush, Retries flushes after others that threw, and Session any
-- sequence of calls with exceptions between them. Spec says what the object is to its user, two
-- queues of bytes, with Apart for the two directions; Message has the operators over sequences of
-- values of any types, with Codec, Transfer from one end to the other, and Delivery, which rests on
-- Returning, the calls that return. Overruns has two ways to an object whose indices leave its
-- block. Conversation joins two objects at the ends of one connection, on which a program makes
-- calls in turns: a call at one end is over before the next begins. Direction has what one call
-- does, Lossless what is kept, Delivered what arrives, and Typed values of any types. Timer has
-- Kernel, Control, Reach, whose steps are calls that return, calls that throw and the time that
-- passes, and Spec, the timer as an abstract machine. FdPass has Lists, Kernel, Sending, Rounds,
-- Receiving, Leaks, Stale and Passing, which joins the two ends, and Object, Connecting and Binding.
-- Epoll has Fields, the union of the event data, Kernel, and Interest, the set that is watched;
-- Ownership has Steps, Closing, Spec, where the objects are the bag of the numbers they hold, a
-- quotient, and Classes for the constructors; EasySocket has Leaks and Addresses, Mmap has Moves,
-- Eventfd has Counter and Transfer has Whole.
--
-- Not modelled: what a mapping's memory holds, since operator[] and the conversions of mmap yield
-- addresses only; the fields of struct stat and struct statvfs, which are the bytes that a call
-- stores. Memory allocation does not fail. Threads are not modelled: no object of the library is
-- made for shared use. The programs under tests/ need the real system. A buffered_socket that was
-- moved from by construction is only destroyed here, or seen through the block that it shares: that
-- a program moves it again, or assigns to it, is not modelled.
pub mod Base
pub mod Effect
pub mod Throw
pub mod Os
pub mod Descriptor
pub mod Transfer
pub mod Handle
pub mod Eventfd
pub mod Signalfd
pub mod Inotify
pub mod Memfd
pub mod File
pub mod Mmap
pub mod Epoll
pub mod Ownership
pub mod Socket
pub mod Endian
pub mod BufferedSocket
pub mod Timerfd
pub mod Timer
pub mod EasySocket
pub mod FdPass
pub mod Loopback
