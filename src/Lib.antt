-- ===== src/Lib.antt =====
-- A verification development for EmbeddedSerialFiller, a publish and subscribe library for serial
-- links between small systems.
--
-- The program. A node packs a topic and data into a packet (type, identifier, length of the topic,
-- topic, data, CRC), encodes it with COBS so that the only zero byte is its last one, and hands the
-- bytes to the user's `txDataReady_`. The user gives received bytes to `GiveRxData`, which collects them
-- in a buffer, cuts them into packets at the zeros, decodes and checks each, acknowledges it where that
-- is asked for, and calls the subscribers of its topic. `PublishWait` also waits for the acknowledgement.
--
-- The files, and what they model:
--   Definitions   include/EmbeddedSerialFiller/Definitions.h: the limits, the build switches (a `Config`)
--                 and the enumerations; `StatusCodeToString`.
--   Etl           what the code relies on of the Embedded Template Library, which is a git submodule and
--                 so a parameter: vectors, strings and `crc16_ccitt`. Its laws are those that the
--                 library documents for calls within a container's capacity.
--   Cobs          src/CobsTranscoder.cpp: both versions of `Encode` and of `Decode`, with and without
--                 `ESF_OPTIMISE` (Encode, Decode); the encoding as a function of the raw bytes (Frame),
--                 and how the loops relate to it (Framing, Encoded, RoundTrip, Presized, Safety).
--   Utilities     src/Utilities.cpp: `MoveRxDataInBuffer` (Receive), `AddCrc` and `VerifyCrc` (Crc),
--                 `SplitPacket` (Split); what leaves the receive buffer, on any bytes (Bytes),
--                 and with the bytes cut in two (Cuts).
--   Outgoing      `PublishInternal`, which both profiles have alike; what it sends (Contents).
--   Incoming      what the loop of `GiveRxData` makes of one packet, up to the acknowledgement, alike
--                 too; the packets that it accepts (Accepts, Short), stated lengths (Lengths), and
--                 all other packets (Total).
--   Incoming.Loop the packet loop that the `GiveRxData` of both profiles share, over an interface that
--                 each of the two fills (NoRtos.Loop, Rtos.Loop): its fuel (Fuel), data that come in
--                 pieces (Pieces, Streams, Partial), the buffer behind an error (Clearing), and nodes
--                 that differ in what no packet shows (Mapped).
--   Registry      the member `subscribers_` of both profiles: the map that it stands for (Lookup), places
--                 in it (Places), and `Unsubscribe` behind `Subscribe` (Undo).
--   NoRtos        src/EmbeddedSerialFiller_NoRTOS.cpp and its header: the node, with `Publish` as
--                 `publish_on`, `PublishWait` as `publish_wait`, `Subscribe`, `Unsubscribe`,
--                 `UnsubscribeAll`, `TaskPending` and `GiveRxData` under their own names; `GiveRxData` on
--                 any bytes (Rounds, Progress), on pieces of a stream (Streams) and on a packet
--                 that is refused among others (Refused), and a program that makes any calls
--                 (Reachable); callbacks that call the node's methods (Reentrant); the list of
--                 subscribers as a map (Topics); a node that sends to another over a serial line, as
--                 a step relation (Link), what is sent (Link.Sending), what arrives (Link.Delivery)
--                 and in which order (Link.Order).
--   Rtos          src/EmbeddedSerialFiller_RTOS.cpp and its header: the node for several threads. A call
--                 also says what it notifies and how it uses the lock; `PublishWait` is cut at its wait
--                 into `publish_wait_start` and `publish_wait_end` (Pending, Receiving, Locking);
--                 `GiveRxData` on any bytes (Rounds, Progress) and on pieces (Streams).
--                 `Subscribe`, `Unsubscribe` (Subscribing), `UnsubscribeAll`, `NumThreadsWaiting` and
--                 `SetThreadSafetyEnabled` hand nothing over, and their use of the lock is left out.
--                 Callbacks that call the node's methods, and threads that call them while a
--                 callback runs: Reentrant.
--   Rtos.Threads  threads that share one node: a step relation over these calls, with the threads that
--                 wait in `PublishWait` as its state; what holds in every state (Tracked, Invariant), what
--                 acknowledgements and new waits do there (Acks), and an identifier that comes round
--                 too early (Collision).
--   Os            what the node takes from include/esf_abstraction.h, as an interface, and `PublishWait`
--                 as a whole on top of it; src/esf_embos_abstraction.cpp (Embos) and
--                 src/esf_freertos_abstraction.cpp (FreeRtos) with their headers, over the primitives of
--                 embOS and FreeRTOS, which are parameters with their documented behaviour, as are the
--                 classes that include/esf_full_std_support.h takes from the standard library (Std);
--                 calls on any of them (Calls), and the three (Profiles).
--   Container     include/EmbeddedSerialFiller/Container.h: both constructors and the implicit copy, and
--                 what an assignment through `value` changes (Aliasing). The structure is a parameter.
--   Tests         the theorems at concrete inputs, with a concrete container library (Tests/Container)
--                 and three small operating systems (Tests/Kernels).
--
-- How the model stands to the code. A function takes the state that the C++ function reads and returns
-- what it changes; the calls of the user's delegates are events, in their order. A byte is a natural
-- number, and a theorem that needs it below 256 says so; arithmetic on `uint8_t`, `uint32_t` and
-- `size_t` (64 bits) wraps where it can. A step that C++ or the container library leaves undefined, and
-- a failed `assert`, is a fault: a theorem that a routine comes to a value says that it meets none. The
-- capacities are the defaults of Definitions.h. A delegate is a number, and `effect` says what a
-- callback leaves in the array that it is given; callbacks that call the node's methods are modelled
-- only in the loop that calls a topic's subscribers (NoRtos.Reentrant, Rtos.Reentrant), where the
-- iterators are places in lists that the callbacks may change. The static `packet` of `PublishInternal` is cleared at its
-- start and so is local.
-- `PublishWait` without an operating system keeps its static variables in `Statics`, apart from the node.
-- Definitions.h sets `ESF_MINIMAL_IMPLEMENTATION` with `PROFILE_NO_RTOS`, and so leaves `Unsubscribe` and
-- `UnsubscribeAll` out of every build of that node: NoRtos models them as they are written, and the
-- program of NoRtos.Reachable calls them only in a build without that switch.
--
-- Loops are structural recursion, but for these, which take fuel: the outer loop of each decoder, with
-- one more than the length of the encoded data, since a round takes at least the count byte of its
-- block; the packet loop of `GiveRxData` in each profile and in Incoming.Loop, with one more than the
-- length of the received data, since each round takes at least the zero of a packet; and the loops
-- of NoRtos.Reentrant and Rtos.Reentrant, with one more than the capacity of their list. The theorems that such a routine comes
-- to a value show that the fuel suffices there.
--
-- Threads. A call of the node for several threads is one step, since it holds the lock, and `PublishWait`
-- two, since it waits without it. `GiveRxData` releases the lock around each callback, and other calls may
-- come in between: what it does up to a callback is a step too, which writes to the buffer only. A wait
-- may end at any time, notified or not, as a condition variable allows. That a thread begins to wait only
-- with an identifier that no other waits for is part of the step relation.
--
-- Not modelled: the selection of an operating system by the preprocessor; the destruction of a
-- `Container` and the layout of its structure; the compiler profiles, which are configuration files of
-- the Embedded Template Library without code; and the tests.
pub mod Base
pub mod Definitions
pub mod Etl
pub mod Cobs
pub mod Utilities
pub mod Outgoing
pub mod Incoming
pub mod Registry
pub mod NoRtos
pub mod Rtos
pub mod Os
pub mod Container
mod Tests
