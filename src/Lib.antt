-- ===== src/Lib.antt =====
-- zanarkand captures the network traffic of a game: it reads packets from a device, puts each
-- TCP stream together again, cuts it into frames, and decodes the messages of a frame for its
-- subscribers.
--
-- The parts, and the files that model them:
--
-- Prelude: the numbers, lists, bytes and integers that all parts use, with their lemmas.
-- Prelude/Decimal is strconv.Atoi and strconv.Itoa, Prelude/Radix prints and reads numbers in a
-- base, and Prelude/Format is fmt.Sprintf as far as numbers are printed with it. A byte is a
-- number below 256, a Go int or uint one of the native numbers, or an integer where it may be
-- negative; Devices/Ints has the ints that wrap around. `le` reads little-endian bytes.
-- Io: bufio.Reader, of which the source uses NewReader, NewReaderSize, Peek, Discard and Read.
-- The buffer's whole array is kept, since a slice of it can be cut again up to its capacity.
-- `rd` is what the reader below still gives, one element for each of its reads, and `rd_err`
-- what it answers behind them. Io/View has the stream that a reader stands for, Io/Peek and
-- Io/Fill what Peek, Discard and Read do to it, Io/More is about a reader with more below it,
-- and Io/Array is about slices of the buffer's array.
-- Error: errors.go, and the errors made with fmt.Errorf. `Outcome` is a value, an error or a
-- panic. Error/Printed has the texts of errors; those of other packages are a parameter.
-- Message: message.go. decode_header is GenericHeader.Decode, decode_game_event is
-- GameEventMessage.Decode and decode_keepalive is KeepaliveMessage.Decode. Message/Wire,
-- Message/GameEvent and Message/Keepalive have the bytes that are written for each, and what
-- Decode makes of them; Message/Body has the cases of a game event behind its header,
-- Message/Cases those of any input, Message/Borrowed is about a keepalive that announces too
-- little, Message/Sharing about the body as a slice of the reader's buffer, Message/Json about
-- the MarshalJSON methods, and Message/Texts about the String methods.
-- Frame: frame.go. decode_frame is Frame.Decode, with the bytes between length and capacity as
-- an argument; discard_until_valid is discardUntilValid. Frame/Direction is Frame.Direction and
-- isPrivate; Frame/Wire is about Decode, Frame/Sync and Frame/More about the search, Frame/Json
-- about MarshalJSON and Frame/Text about String.
-- Reassembler: reassembler.go. `round` is one pass of the loop of frameStream.run, `run` the
-- loop with the packets that it sends on dataCh, report_error is reportError.
-- Reassembler/Reading, Reassembler/Rounds and Reassembler/More are about one round,
-- Reassembler/Delivery and Reassembler/Faults about the whole loop, Reassembler/Buffered and
-- Reassembler/Pieces about streams whose pieces hold whole frames. Reassembler/Streams has
-- frameStreamFactory.New: any number of streams with the two channels that they share, as a step
-- relation in which one round of one stream, or one receive, is a step;
-- Reassembler/Streams/Order and Reassembler/Streams/Bounds are about all its runs.
-- Sniffer: sniffer.go. next_frame is NextFrame, process_frames is ProcessFrames with
-- process_messages as its loop over the messages of a frame. Sniffer/Start is the loop of Start
-- over the events that its select receives, Sniffer/Config is NewSniffer. Sniffer/Frames and
-- Sniffer/Messages are about ProcessFrames, Sniffer/Handover about NextFrame on what the streams
-- send, Sniffer/Pipeline about a stream's loop, NextFrame and ProcessFrames together,
-- Sniffer/Simulation about two handlers that agree.
-- Sniffer/Lifecycle has Start, Stop, NextFrame, ProcessFrames and the call of Start in Subscribe
-- as the steps of two goroutines, that of Start and a reader that calls as often as it wants to,
-- over the sniffer's state, its context and dataCh; its fields' names are those of the Sniffer,
-- and a Phase or ReaderPhase is a place in the code. Sniffer/Lifecycle/Invariant is about every
-- run, Sniffer/Lifecycle/Ends about what follows the end of Start's loop. Sniffer/Sharing has
-- the same with any number of calls of Start, each with its own context, and any number of
-- readers; Sniffer/Sharing/Split is about who gets which packet, Sniffer/Sharing/Again about a
-- Subscribe behind a Stop.
-- Sniffer/Assembly has the loop of Start with its calls of the assembler, the streams'
-- goroutines of reassembler.go and dataCh: a call that gives a stream a piece is over when the
-- stream is read, which is a parameter. Sniffer/Assembly/Sent and Sniffer/Assembly/Order are
-- about every run, Sniffer/Assembly/Hung is about a call for a stream that is read no further,
-- Sniffer/Assembly/Split and Sniffer/Assembly/Full about how that comes about,
-- Sniffer/Assembly/Open and Sniffer/Assembly/Sending about a goroutine that is given whole
-- frames, Sniffer/Assembly/Whole about streams of them, and Sniffer/Assembly/Handled about what
-- a handler gets of them.
-- Subscriber: subscriber.go, subscriber_gameevent.go and subscriber_keepalive.go.
-- game_event_subscribe, game_event_handle, keepalive_subscribe and keepalive_handle are the
-- functions that the four Subscribe methods give to ProcessFrames, and Subscriber/Subscribe has
-- the methods. Subscriber/GameEvents and Subscriber/Keepalives are about single messages,
-- Subscriber/Agreement about the handlers with a callback, Subscriber/Closing about Close and
-- the options, Subscriber/Pipeline about a stream's loop, ProcessFrames and the subscribers
-- together.
-- Subscriber/Delivery has the Subscribe of GameEventSubscriber, the receivers of its two
-- channels and its Close as the steps of goroutines, with a send as a step that waits for its
-- receiver. Subscriber/Delivery/Order is about every run, Subscriber/Delivery/Blocked about a
-- send that nothing receives, Subscriber/Delivery/Progress about one that is received.
-- Console: what the programs in examples/craft_state/main.go and
-- examples/message_printer/main.go share. fake_main is fakeMain with its loop and the ways to
-- end; a Program says what is logged of a message, as text; the texts of errors of other
-- packages and of signals are a parameter.
-- Crafting: the program in examples/craft_state. Crafting/Names is craftstate.go with the tables
-- of actionmap.go and conditionmap.go, Crafting/EventPlay the events of eventplay.go with
-- unmarshal_bytes for UnmarshalBytes, Crafting/Main what main.go does with a message.
-- Crafting/Wire and Crafting/RoundTrip have the bytes that are written for an event,
-- Crafting/Runs is about what the program logs.
-- Printing: the program in examples/message_printer.
-- Devices: Devices/Names is devices/device.go, Devices/Handles is devices/handle.go with
-- devices/pfring_linux.go and devices/pfring_nonlinux.go, Devices/AfPacket is OpenAFPacket of
-- devices/handle.go with devices/afpacket_linux.go and devices/afpacket_nonlinux.go,
-- Devices/Buffers is devices/afpacket.go, over the 64-bit ints of Devices/Ints.
-- Tests: the theorems at concrete inputs.
--
-- How they interact: Reassembler sends a Packet for each frame that it cuts, with Frame's search
-- and Io's reader. Sniffer picks a Packet, decodes it by Frame into a Frame, and calls a
-- FrameHandler, the interface to Subscriber, behind each header. Reassembler/Streams sends a
-- Packet for each round of a stream, and Sniffer/Handover takes it from there to NextFrame. The
-- programs of Crafting and Printing make a sniffer by Sniffer/Config, whose functions that open
-- a device are those of Devices, and take the messages that Subscriber sends. A FrameHandler
-- takes its own state, the frame, the header and the reader, and gives its state and the reader,
-- or an error, or a panic.
--
-- Bounds and fuel: discard_until_valid runs one round for each byte of the stream and one more,
-- and is shown to end by then. `run` takes its number of rounds as an argument, since the loop
-- does not end on a stream that does not; where a theorem is about a whole stream it says how
-- many rounds are enough. uint32 and uint16 fields are numbers below 2 ^ 32 and 2 ^ 16 by their
-- decoding. A frame's timestamp is computed as Go does it, with the product wrapped to 64 bits.
-- Behind an error a reader is not used again, so the outcome of an error has none.
--
-- Concurrency: which case a select takes, and what IsActive answers, is an argument, so a
-- theorem holds for every schedule. In the handlers of Subscriber a channel is the list of what
-- was sent on it, as if its receiver were always there; Subscriber/Delivery has the waiting.
-- dataCh and errCh keep their sizes in Reassembler/Streams and Sniffer/Lifecycle, where the
-- steps of the goroutines may come in any order. In Reassembler/Streams the pieces of a stream
-- are fixed when it is opened; the step relation lets them be read at any time, as if the
-- assembler had always given the next piece; in Sniffer/Assembly each piece is given by a step
-- of Start. A round of a stream that has no more bytes yet does not end there, and is the same
-- round with the next piece behind it, as a round that sends is: `would_block` marks that place.
-- Sniffer/Lifecycle has one call of Start and one reader, Sniffer/Sharing any number of both.
--
-- What is not modelled: the capture libraries, the TCP assembler, zlib and net.ParseIP are
-- arguments. The text of JSON, the mutex, the tracing functions, and the methods of a handle
-- that only pass a call on to its library are left out; where a JSON text is logged it is an
-- argument. The flags of the two programs are read by the flag package: their values are
-- arguments. The assignment of s.ctx and s.cancel is one step. The size that is given to make
-- for a channel is taken to fit the memory.
pub mod Prelude
pub mod Io
pub mod Error
pub mod Message
pub mod Frame
pub mod Reassembler
pub mod Sniffer
pub mod Subscriber
pub mod Console
pub mod Crafting
pub mod Printing
pub mod Devices
mod Tests
