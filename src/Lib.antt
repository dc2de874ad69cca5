-- ===== src/Lib.antt =====
-- go-meshtastic-serial2tcp shares one Meshtastic radio, on a serial line, between TCP clients. This
-- library models the parts of it that decide who gets what, and proves what they do.
--
-- The program. internal/server opens the serial line and a listener, and gives both to a Broker
-- (internal/broker). The broker reads frames (internal/frame) from the radio and from each client. It
-- keeps the radio's config dump in a cache, answers a client's WantConfigId from that cache or sends
-- the request on under an id of its own, brings the radio's ConfigCompleteId back to the client that
-- asked, forwards packets, and keeps the radio's echo of a chat packet from its sender. internal/webui
-- observes the payloads. internal/meshtastic is code generated from the protobuf files.
--
-- Which file models what:
--   Prelude        numbers, lists, Go maps as association lists, sorting by key, strings
--   Frame          internal/frame/frame.go: ReadFrame, WriteFrame, writeAll
--   Meshtastic     internal/meshtastic: the messages that the program reads; Codec, which stands for
--                  google.golang.org/protobuf; Toy is a small codec for the tests
--   Broker/Client  internal/broker/broker.go: client, its channel and its flags
--   Broker/Cache   internal/broker/broker.go: configCache; internal/broker/chat.go: localNodeNum
--   Broker/State   internal/broker/broker.go: Broker, New, fail, PublishStatus
--   Broker/Pending internal/broker/broker.go: reserveConfigRequest, takeConfigRequest,
--                  dropPendingForClient
--   Broker/Outbound internal/broker/broker.go: noteOutboundPacket, consumeOutboundOrigin,
--                  packetSuppressesOriginEcho
--   Broker/Delivery internal/broker/broker.go: AddClient, removeClient, CloseAll, sendToClient,
--                  broadcastExcept, writeLoop
--   Broker/Serial  internal/broker/broker.go: forwardToSerial, writeSerial
--   Broker/Handle  internal/broker/broker.go: handleClientPayload, sendCachedConfig, readLoop
--   Broker/Radio   internal/broker/broker.go: readSerial, routeFromRadio, handleRebooted,
--                  handleConfigComplete, bootstrapConfig
--   Broker/Canned  internal/broker/canned.go: ParseCannedMessages, tryDeliverCanned, the caches;
--                  Canned/Fetch: FetchCannedMessages
--   Broker/Chat    internal/broker/chat.go: nextPacketID, SendTextMessage
--   Broker/Debug   internal/broker/debug.go: labels and statistics for the log;
--                  Debug/Payload: internal/broker/broker.go, decodeDataPayload; Debug/Line:
--                  internal/broker/broker.go, logDecodedPayload
--   Webui/Hub      internal/webui/hub.go: events, channels, subscribers
--   Webui/Status   internal/webui/hub.go: SetStatus, Snapshot
--   Webui/Chat     internal/webui/chat.go: RecordChat
--   Webui/Packets  internal/webui/chat.go: TryRecordChatFromPacket, SnapshotChat
--   Webui/Send     internal/webui/chat.go: SendChat; internal/webui/canned.go: FetchCanned
--   Webui/Radio    internal/webui/sender.go: Radio; internal/webui/chat.go: radio
--   Webui/Node, Webui/Nodes  internal/webui/nodes.go
--   Webui/Protos   internal/webui/packet_proto.go: the JSON of the packets seen
--   Webui/Labels   internal/webui/proto.go
--   Webui/Observer internal/webui/observer.go: ObservePayload
--   Webui/Http     internal/webui/server.go: the handlers; Http/Stream: handleEvents
--   Webui/Run      the calls on a hub as a step relation
--   Webui/Replay   the calls of a broker made on a hub; Replay/Ending: internal/server/server.go, the
--                  end of a session in Run
--   Termios        internal/termios/termios.go; Termios/Darwin and Termios/Windows: the files
--                  termios_darwin.go and termios_windows.go beside it
--   Serial         internal/serial/serial_unix.go and device_unix.go; Serial/Windows:
--                  serial_windows.go and device_windows.go
--   Config         internal/config/config.go: Load; `Flags` is what the package flag has parsed
--   Server         internal/server/server.go: the reconnect loop of Run; Server/Accept: the goroutine
--                  that accepts connections; Server/Wait: waitForDevice, RunHealthcheck
--   Broker/Run     the goroutines of the broker as a step relation
--
-- State. A Broker is one record. Clients are pointers in the source, so a client is a number here and
-- `heap` holds the object. A Go map is an association list; its order stands for the order in which
-- `range` visits the keys, which Go leaves open. A nil slice and an empty one are the same list. Times
-- are numbers of nanoseconds. The calls on the hub of the web UI are recorded as a list.
--
-- What is not decided by the code is an argument: the bytes that a writer takes at each call
-- (`Writer.script`), the random words of reserveConfigRequest (`draws`), the time (`now`), the rounds
-- that a write loop makes while a blocking send waits and the choice of Go's select (`Wait`). The loop
-- of reserveConfigRequest runs over the draws at hand and returns `none` if they do not suffice; that
-- enough draws give a result is a theorem. ReadFrame and the write loops recurse on their input.
--
-- The encoding of protobuf messages is the parameter `Codec`. No law of it is assumed: theorems name
-- the results of the calls that they are about.
--
-- The same holds for the web UI: what protojson prints and the names of enumeration values are the
-- parameter `Printer`; the time, the order in which `range` visits the cache of packets and the
-- number of the radio's node are found by each call (`Ambient`). A call has one time. The provider
-- of the radio may return a nil broker, whose methods panic, and a panic is `none`. Whether a
-- message encodes as JSON is the argument `encodes` of the stream's definitions. The system calls
-- on a serial device turn out as `Outcomes` says; the constants of termios are the parameter
-- `Constants`, and those of the Windows rates the argument `cbr`. The theorem on Open takes from
-- termios(3) that the flags do not overlap.
--
-- Goroutines are interleaved round by round: one payload from a client, one payload from the radio, one
-- payload that a write loop sends. The locks make each access of a map atomic, and a step here is
-- coarser than that. A client that is removed between the read and the handling of its payload is not
-- modelled.
--
-- Not modelled: the calls of the log, the JSON document into which it puts a payload
-- (injectDecodedPayloadJSON), the wiring of the HTTP server and the encoding of its answers, a change
-- of the current broker between the moment at which Run's accepting goroutine reads the pointer and
-- AddClient, mDNS, and the main program.
pub mod Prelude
pub mod Frame
pub mod Meshtastic
pub mod Broker
pub mod Server
pub mod Webui
pub mod Config
pub mod Termios
pub mod Serial
