-- ===== src/Lib.antt =====
-- The wire format, the session state and the message routing of paho.golang, an MQTT v5 client.
--
-- packets/ turns control packets into bytes and back. The client in paho/ allocates a packet
-- identifier for each message (paho/session/state/state.go), waits for a slot below the server's
-- receive maximum (sendquota.go), stores the packet (paho/store/memory/store.go), and writes it.
-- Received packets are read by ReadPacket, routed to handlers (paho/router.go) and acknowledged in
-- the order of their arrival (paho/acks_tracker.go).
--
-- Common: names of the libraries, Boolean tests, lists and integers over the native numbers.
--
-- Packets, for packets/. Result: errors and readers over a buffer, as values. Types and Wire:
-- packets.go, the constants and the MQTT data types (encodeVBI is encode_vbi, readString is
-- read_string, and so on). Properties: properties.go, with its children Pack, Unpack, RoundTrip
-- and Faults. Acks: puback.go, pubrec.go, pubrel.go, pubcomp.go. Replies: connack.go,
-- disconnect.go, auth.go, suback.go, unsuback.go. Requests: publish.go, subscribe.go,
-- unsubscribe.go. Connecting: connect.go. Control: ReadPacket, NewControlPacket and
-- ControlPacket.WriteTo of packets.go. X.Unpack is x_unpack and X.Buffers is x_buffers.
--
-- Session, for paho/session/state/ and paho/store/memory/. SendQuota: sendquota.go, where each
-- critical section of Acquire, Retransmit and Release is one function, Slots has the step relation
-- of all publishers, and Balance and Maximum its invariants. PacketIds: allocateNextPacketId of
-- state.go. MemoryStore: store.go.
--
-- Session.Storer is the interface of store.go in paho/session/state/, and Session.State is State
-- of state.go, over any Storer: AddToSession up to the slot is begin_add and from there on
-- add_with_slot, ConAckReceived is con_ack_received, PacketReceived is packet_received and Ack is
-- ack. A State has, besides its fields, what it wrote, delivered and answered. MemoryStorer is the
-- storer of NewInMemory.
--
-- Client, for paho/. AcksTracker: acks_tracker.go. Router: router.go. Conversions: cp_*.go, where
-- X.Packet is x_packet. Of client.go: Negotiated is CommsProperties; Sending is
-- PublishWithOptions, Subscribe and Unsubscribe, given what the session, the connection and the
-- context do; Handlers is routePublishPackets and AddOnPublishReceived; Running is Connect with
-- expectConnack, Running.Incoming is incoming, given what ReadPacket returns in turn, and
-- Running.Calls is Ack, a tick of the ticker that sends acknowledgements, Authenticate, Disconnect
-- and shutdown. Connect and incoming call the session of Session.State. Pinger: Run of pinger.go
-- over the list of the events that reach it.
--
-- Extensions. TopicAliases: paho/extensions/topicaliases/. MemoryQueue: autopaho/queue/memory/.
-- Backoff: autopaho/backoff.go.
--
-- A byte, a number of 16 or 32 bits and a character of a string are native numbers; the hypotheses
-- bound them where the width matters. A Go int that may be negative is an integer; the counters of
-- the memory store, an int of 64 bits that wraps, are given as the number 2^63 above it. A string
-- or slice of no bytes stands for its absence, and a nil pointer is none. A map is a list of its
-- keys and values, and what ranges over a map takes the entries in the order of the visit.
--
-- Fuel: the loop of Properties.Unpack has the length of the buffer, since each property takes a
-- byte; the subscriptions of SUBSCRIBE have the length of the buffer, the topics of UNSUBSCRIBE
-- one more; the first search for a packet identifier has 65,536 rounds, one more than there are
-- identifiers; SetAlias has one round more than there are aliases; AddOnPublishReceived tries one
-- identifier more than there are handlers. encodeVBI has its array of four bytes.
--
-- Not modelled: the goroutines, timers and locks of paho/client.go; the file store and the file
-- queue, which are file system calls; the connection manager of autopaho/; the RPC extensions;
-- commands, examples, logging, test servers; Properties.PackBuf, which nothing calls; the String
-- and Reason methods.
pub mod Common
pub mod Packets
pub mod Session
pub mod Client
pub mod Extensions
