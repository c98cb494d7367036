-- ===== src/Lib.antt =====
-- Verification of the multipath QUIC stack of IVSH3 (src/sa-ecf in the repository, a Go package).
--
-- A session exchanges packets with its peer over several paths, and a scheduler picks the path that
-- sends next. Per path, the receiving side keeps the packet numbers it saw and answers with ACK
-- frames; the sending side keeps the packets that it sent until they are acknowledged or taken for
-- lost, retransmits the latter, and announces through STOP_WAITING frames what the peer need not wait
-- for. A session keeps its open streams in a map, and puts the frames of each one in order; per connection, flow control bounds what each stream and all streams together send. Packet numbers are
-- truncated in the public header, and frames are encoded in one of two byte orders, which the
-- version chooses.
--
-- The files, with the code that they model:
--   Common               numbers as machine words, lists, association lists for Go's maps, results
--   Protocol             src/sa-ecf/internal/protocol/packet_number.go
--   Utils/ByteOrder      src/sa-ecf/internal/utils/byteorder.go, byteorder_little_endian.go and
--                        byteorder_big_endian.go; `ByteOrder` is Go's interface, `IsCodec` what the
--                        frames rely on
--   Utils/Float16        src/sa-ecf/internal/utils/float16.go
--   Wire/StreamFrame     src/sa-ecf/internal/wire/stream_frame.go
--   Wire/Control         src/sa-ecf/internal/wire: the control frames, one file of Go each
--   Wire/AckFrame        src/sa-ecf/internal/wire/ack_frame.go, ack_range.go and close_path_frame.go:
--                        the frames and what they acknowledge
--   Wire/AckBlocks       src/sa-ecf/internal/wire/ack_frame.go and close_path_frame.go: the ranges as
--                        blocks of a gap and a length, in the loops that both frames share
--   Wire/AckCodec        src/sa-ecf/internal/wire/ack_frame.go: `Write` and `ParseAckFrame`; what
--                        time.Since returns is an argument
--   Wire/ClosePath       src/sa-ecf/internal/wire/close_path_frame.go: `Write` and the parser
--   AckHandler/History   src/sa-ecf/ackhandler/received_packet_history.go
--   AckHandler/Received  src/sa-ecf/ackhandler/received_packet_handler.go
--   AckHandler/StopWaiting  src/sa-ecf/ackhandler/stop_waiting_manager.go
--   FlowControl/Controller  src/sa-ecf/internal/flowcontrol/flow_controller.go
--   FlowControl/Manager  src/sa-ecf/internal/flowcontrol/flow_control_manager.go
--   Scheduler            src/sa-ecf/path_scheduler.go: the selection of a path by round robin, low
--                        latency and earliest completion first; `NetworkPath` holds the answers of a
--                        path's packet handler and RTT statistics, and the lengths of the data that
--                        waits in the streams are an argument
--   Generator            src/sa-ecf/packet_number_generator.go; the answers of the random source are
--                        arguments
--   AckHandler/Packet    src/sa-ecf/ackhandler/packet.go and retransmittable.go
--   AckHandler/Sent      src/sa-ecf/ackhandler/sent_packet_handler.go: `State`, `Send`, `Newly`, `Loss`,
--                        `Acks`, `Timeout`, `Queue` and `Alarm` hold its methods, `Steps` runs of them.
--                        The congestion controller and the RTT statistics are an `Environment`, which
--                        answers from the calls that were made; the clock is an argument
--   Streams              src/sa-ecf/streams_map.go: `Map` opens streams, `Walk` accepts and removes them
--                        and loops over them, `Steps` are sequences of these operations. A stream is
--                        any value, and the limits are what the connection parameters answer
--   Congestion           src/sa-ecf/congestion/prr_sender.go
--   FrameSorter          src/sa-ecf/stream_frame_sorter.go: the reassembly of a stream's frames
--
-- Functions and methods keep their names, in snake_case; a method takes its receiver as the last
-- argument and returns the new one. An error is a value of a result type, or stands beside the
-- state that it leaves where Go has changed that before. A uint64 or uint32 is a number with its wrap-around
-- written out; int counters are not bounded. Readers and buffers are lists of bytes, the clock is
-- an argument, a mutex makes a method one step, and a loop over a map visits its entries in the
-- order of a list. Loops are recursions on the list they go through or on the number of rounds
-- left, and none needs more fuel than that.
--
-- Not modelled are the sockets, goroutines, timers and locks, the cryptography, the congestion
-- control in floating point, the stream-aware scheduler, and logging. The sums of flow control and
-- the packet numbers are assumed to stay below 2 ^ 62, 2 ^ 63 or 2 ^ 64 where a theorem says so.
pub mod Common
pub mod Protocol
pub mod Utils
pub mod Wire
pub mod FlowControl
pub mod Generator
pub mod Streams
pub mod Congestion
pub mod Scheduler
pub mod FrameSorter
pub mod AckHandler
