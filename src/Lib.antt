-- ===== src/Lib.antt =====
-- SoraTransport sends a directory tree over a websocket, or packs it to a file: a traversal and
-- opened files feed an archive, its bytes are compressed, cut into frames, and undone in the same
-- order on the other side. Threads and coroutines hand work to one another through bounded queues,
-- and budgets of bytes are counting semaphores. The modules below model the parts of this that
-- have logic of their own. Each stands for the files that its first comment names.
--
-- Prelude: lists, texts, integers, Boolean tests, and results that may be an exception.
-- Protocol (src/detail2/protocol.hpp and .cpp, parts of src/detail/io.cpp): `make`, `serialize_to`,
--   `deserialize_from` and `write_header` of the frame header; `frame` for the two senders of
--   frames and `parse_frame` for `read_next_frame`; `append_record` and `decode` for the control
--   records. Bytes are numbers below 256. The loop of `decode` has fuel of the payload's length,
--   which is enough, since a round takes four bytes at least.
-- WriteBuffer (src/detail2/buffered_sender.hpp and .cpp): the buffer in front of a socket. The flush
--   callback and the clock are parameters. `write_loop` has fuel of two rounds for a byte.
-- Semaphore (src/detail2/infra.hpp and .cpp): `async_acquire`, `release`, `cancel` and the guard of
--   `SemaphoreCor`, each a critical section that returns the completions it posts.
-- Queue (`BoundedQueue` of src/detail/types.hpp): pushes and pops of both kinds, `close` and
--   `abandon`, as critical sections. A blocking call is two of them, and other threads may run in
--   between; waiting is a section that is not ready yet.
-- Adaptive (`AdaptiveLevelController` of src/detail2/zstd.hpp and .cpp): when the compression level
--   changes. Times are nanoseconds and given as arguments.
-- Timestamp (src/detail2/filesystem.cpp and src/detail2/tar.cpp): file times on both sides. What the
--   archive library makes of the time of an entry is a parameter.
-- Reader (`OverlappedFileReader` of src/detail/io.hpp and io.cpp): the ring of eight reads in
--   flight. What the system answers is a parameter by the offset and length of a read.
-- Cli (src/detail/cli.cpp): the command lines of both programs. A round of an option loop takes an
--   argument at least, so fuel of their number is enough.
-- Config (src/detail2/config.hpp and .cpp, src/detail/runtime.cpp): what options and hardware set.
-- FileCompare (src/detail2/file_compare_stream.cpp, the control messages of
--   src/detail2/protocol.cpp, `file_differs_from_local` of src/detail2/filesystem.cpp): the batches
--   of files that the sender offers, the answer of the receiver, and the entries forwarded. The
--   JSON library, what the file system answers for a path and what the queues throw are parameters.
--   Json, Message, Local and Batches are its parts. Json.Values says which values the library can
--   print; StackCodec is a codec for the runs at concrete inputs.
-- FileSink (`FileByteSink` of src/detail/io.cpp): the slots whose overlapped writes are in flight
--   while the next one fills, `write`, `close` and the waits. What the system answers is a parameter
--   by the number of the call. `write_loop` has fuel of two rounds for a byte, the wait for all
--   writes that of their number. `save` of FileSink.Save stands for a caller.
-- FileSource (`FileByteSource` of src/detail/io.cpp): a byte stream over the chunks of Reader. The
--   loop has fuel of the bytes wanted.
-- SocketSink (`SocketByteSink` of src/detail/io.cpp): the data buffer and the WriteBuffer of control
--   messages in front of one websocket, and the calls that fill and flush them. The websocket,
--   the clocks and a cancellation are parameters. `write_loop` has fuel of two rounds for a byte.
-- SocketSource (`SocketByteSource` of src/detail/io.cpp): what the receiver makes of the messages of
--   the websocket. What the JSON library says of a text, and the handler of control messages, are
--   parameters. The loops have fuel for one frame a round: each message of the websocket, and its end.
-- Progress (src/core.hpp and core.cpp): the counters and flags of a transfer.
--
-- Not modelled: the websocket, zstd, libarchive, the JSON library, thread pools and Win32 are
-- libraries; the graphical program is user interface; the pipelines that connect the parts, the directory
-- traversal, the file writer and the thread that keeps a connection alive are not. A request of no
-- bytes to the buffer pool at the end of a file is taken to succeed. Texts of messages are left out.
pub mod Prelude
pub mod Protocol
pub mod WriteBuffer
pub mod Semaphore
pub mod Queue
pub mod Adaptive
pub mod Timestamp
pub mod Reader
pub mod Cli
pub mod Progress
pub mod Config
pub mod FileCompare
pub mod FileSink
pub mod FileSource
pub mod SocketSink
pub mod SocketSource
