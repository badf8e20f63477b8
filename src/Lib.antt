-- ===== src/Lib.antt =====
-- crocofix, a FIX engine: the message codec, the field collections, the session, the order book,
-- the socket reader and writer, the scheduler and the tools built on them.
--
-- The program's parts and the files that model them:
--   Field        libcrocofix/field.cppm, field_collection.cpp: fields, and the list of them in a
--                message (`set`, `get`, `try_get`, `get_bool`, `remove`). Theorems are in
--                Field/Collection and Field/Removal. Field/Conversions has the constructors of
--                libcrocofix/field.cpp and the overloads that convert a value.
--   Dictionary   libcrocofixdictionary: the look-ups in the tables of an orchestration. The tables
--                are generated from XML and are parameters.
--   Tags         the tags and values of FIX.5.0SP2 that the code names.
--   Message      libcrocofix/message.cpp and libcrocofixutility/number_of_digits.cppm. `decode` stands
--                in Message/Decode, the two `encode` in Message/Encode, the rest in Message. Theorems
--                are in Message/Wire, BodyLength, Checksum, Fuel, Capacity and RoundTrip. Behind, Split,
--                Scan and Stopped say what a round and the whole loop leave of the buffer; Resume uses
--                them for a message that arrives in pieces. `pretty_print` is in Message/Printing.
--   Session      libcrocofix/session.cpp, session_options.cppm, session_state.cpp: its state and the
--                setters in Session/State, `send` in Send, the messages of its own and the timers in
--                Replies, the checks of an incoming message in Validate, the handlers of the
--                administrative messages in Process, and `on_message_read` in Handler, where the
--                calls that reach a session from outside are listed (`Call`, `run_calls`). Steps, with
--                its children for Replies, Validate and Process, gives one lemma to each method for
--                any relation that its primitive steps keep; Frame, LoggedOn and Transitions,
--                which is about the state machine, use it. Handshake follows two sessions
--                that log on to each other, Recovery two that close a gap, with Recovery/Reset for a
--                SequenceReset that leaves one; Delivery, Numbers
--                and Refusal are about single methods.
--   Order        libcrocofix/order.cpp, with Order/Identity, Order/Rollback and Order/Replacement.
--   OrderBook    libcrocofix/order_book.cpp, with OrderBook/Keyed, Entry, Lookup and Others.
--   SocketReader libcrocofix/socket_reader.cpp: the buffer and the handler of `async_read_some`, `on_read`.
--                Stream says what a stream of bytes means, Bounds is about the offsets, Refinement
--                compares the reader with the stream, and Frames sends encoded messages through it.
--   SocketWriter libcrocofix/socket_writer.cpp: `write`, `flush_pending_writes` and the handler of
--                `async_write`, `complete`; Order is about the bytes sent, Wait about the end of `write`.
--   Connection   a writer and the reader at the other end, with the bytes between them, as one system
--                whose steps interleave.
--   Scheduler    libcrocofix/boost_asio_scheduler.cpp, with Scheduler/Timers.
--   BlockingQueue libcrocofixutility/blocking_queue.cppm, with BlockingQueue/Fifo.
--   Report       libcrocofixutility/report.cpp, with Report/Alignment; OrderReport is
--                libcrocofix/order_report.cpp, with OrderReport/Rows.
--   Fixcat       fixcat/main.cpp and fixcat/options.cpp, with Fixcat/Streams.
--   Fixsed       fixsed/options.cpp, with Fixsed/Endpoints and Fixsed/Checked; Fixsed/Pipeline and
--                Fixsed/Run are fixsed/pipeline.cpp, Fixsed/Forwarding is about what passes through.
--   Base         lists, bytes, the conversions of the C++ library between text and integers, and
--                methods that change an object and may throw (Base/Exec).
-- The session decodes nothing itself: a reader hands it messages, and it hands messages to a writer;
-- both are reached through the calls and events of Session/State. The socket reader decodes with
-- Message/Decode and the socket writer encodes with Message/Encode. The order book takes messages, fixcat
-- decodes them and feeds the book and its report, and fixsed hands what one side sent to the writer of
-- the other.
--
-- An object is a record and a method takes it to a result, which is a value or the exception, and the
-- record as the method left it, also when it threw. A `uint32_t` is a natural number with `% 2 ^ 32`
-- where the code increments or converts; a field's value and a buffer are lists of bytes.
--
-- Bounds and fuel: `to_string` writes at most 20 digits, enough for 64 bits. `decode_loop` runs on fuel
-- one more than the length of the buffer; each round but the last takes at least two bytes, and where
-- the loop ran out of fuel the result says so (`ended`). The reader's
-- loop runs on fuel one more than the bytes that are not read yet, of which each message takes one at
-- least. The wait at the end of `write` runs on fuel 2, the two writes that can be left to complete. The
-- read and write buffers have 8192 bytes; tokens of the scheduler are below 2 ^ 64. What is only asked of
-- widths and sizes for printing is not narrowed to `int`.
--
-- Not modelled: the sockets but for the bytes between two of them, their errors and the io_context
-- of Boost.Asio, whose handlers are methods here that run in any order; threads but for the
-- blocking queue, whose condition variable is the numbers of those that sleep and that were woken; the
-- bytes that `decode` reads in front of a data field's tag after a negative length (`undetermined`); the DTrace probes; reading files, which are the lines they hold, and the command
-- line; the scripts of fixsed, which are functions; the logging set-up, the bindings for Lua and
-- Python and the generators, which hold no logic of the engine. The tables of an orchestration are
-- generated. A writer that throws, and a reader, writer, scheduler or subscriber that calls the
-- session back before it returns, are left out of the session: `Env` gives what the writer makes of
-- a message, the scheduler's tokens and the time. What a log text says is kept, who receives it is
-- not. Fields are not made of `double` values. In the loop of fixsed the wait of a write over the
-- high water mark is left out; it is modelled in SocketWriter.
pub mod Base
pub mod Tags
pub mod Field
pub mod Dictionary
pub mod Message
pub mod Session
pub mod Report
pub mod OrderReport
pub mod Fixcat
pub mod Fixsed
pub mod Scheduler
pub mod BlockingQueue
pub mod SocketReader
pub mod SocketWriter
pub mod Connection
pub mod Order
pub mod OrderBook
