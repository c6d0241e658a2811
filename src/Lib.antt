-- ===== src/Lib.antt =====
-- Models of the data readers' core and the theorems that make it correct: fwEDR, the agent that polls
-- devices over SNMP, BACnet and gNMI and ships what it reads, through a queue on disk, to fwDCS,
-- and fwIDR, the agent that does so on the hosts themselves.
--
-- Which file models what:
-- - Bacnet: fwEDR/internal/bacnet/codec.go, the BACnet/IP codec. Encode has the tag encoders
--   (encAppUint is `enc_app_uint`, and so on), Frame the BVLL, NPDU and APDU layers, Tag the tag
--   decoders, Request the request builders, Response the decoders of acknowledgements, Notify
--   those of I-Am and of COV notifications, Objects the object tables (objects.go and
--   plant_objects.go beside it). A byte slice is a list of numbers; an index or a slice
--   out of range is the outcome `panic`, an error value is `err`.
-- - Poller: fwEDR/internal/poller/poller.go. Breaker has circuitBreaker, Health healthMonitor,
--   Throttle logThrottle and Limiter rateLimiter. Times are nanoseconds that the caller passes.
--   Collect has the tiers and the dispatch of Collect (fwEDR/internal/snmp/metrics.go), Sockets the
--   caps of New, the pools and ShardPort (fwEDR/internal/snmp/client.go), State the state of the
--   poller and getBreaker, Poll one pollSNMP as a step of that state, and Poll.Walks walkAll, Run and
--   AddTarget. What a poll meets outside
--   the state (its waits, the device's answers) is the record `Meets`.
-- - Queue: fwEDR/internal/queue/queue.go, the persistent queue. Queue.Bbolt is the interface of the
--   bucket: its operations, and the laws that the documentation of bbolt gives.
-- - Publisher: fwEDR/internal/publisher/publisher.go and fwEDR/internal/health/gate.go. `send_batch`
--   and `record_result` are sendBatch and recordResult; `drain_round` is a round of the loop of
--   drain, and the batches whose goroutines run are a list.
-- - Target: fwEDR/internal/target/target.go; Target.Assets has PatchAsset.
-- - Command: Fields and Apply are fwEDR/internal/command/apply.go and loop.go, where `apply` gives the
--   write that Apply makes and `tick` takes the outcomes of the writes; Thresholds is
--   fwEDR/internal/threshold/poller.go, where `poll_one` takes what the agent answers; Readback has
--   the tables of the two side by side, Location what a poll reads of the location of a device, and
--   Edit what a command does to it there and on the target.
-- - Ingest.Cache: fwDCS/internal/ingest/cache.go, the LRU cache of the ingest workers, and
--   Ingest.Dedup: fwDCS/internal/ingest/dedup.go, with Redis as an interface (`Redis`).
--   Ingest.Packet has Normalize, Ingest.Links SetLinkActive (fwDCS/internal/store/timescale.go), and
--   Ingest.Worker with its child Process fwDCS/internal/ingest/worker.go over the database as an
--   interface (`Store`): `process` is process, and `handle_packet` a packet of a batch in workerLoop.
--   Ingest.Classifier is fwDCS/internal/store/classifier.go, the roles of switches.
-- - Forward: fwDCS/internal/forwarder, which pushes what DCS stores to the Aggregator. Rows and Payload
--   have the rows of fwDCS/internal/store/forward.go and what is made of them, Cursor and Tables the
--   queries and cursors of that file, Gate shouldPoll and recordPoll, Scope buildPayloads, Chunk
--   chunkPayload and splitDevice, Post postWithRetry, Queries the reads of pushNetwork, Push pushNetwork
--   and push as steps of the state `World`, and Commands pullUICommands (uicommands.go).
-- - Idr: the agent on the hosts themselves. Idr.Queue is fwIDR/internal/queue/queue.go, over the same
--   bucket and codec, and Idr.Publisher is fwIDR/internal/publisher/publisher.go: `drain` takes the
--   outcome of stream.Send for each round of the loop.
-- - Prelude: what the parts share. Prelude.Outcome has the outcomes of a Go call, Prelude.Loop loops
--   on fuel.
--
-- How the parts interact: the poller's breakers feed its health monitor; packets go from the pollers
-- to the queue, from which the publisher takes batches to send to DCS, and back to it when a send
-- fails; the publisher's gate stops the pollers while DCS is down. DCS looks devices up through its
-- cache; its workers drop replays and duplicate link traps, and hand rows of metrics to the
-- database. The forwarder reads the rows behind its cursors, groups and cuts them into posts, and moves
-- the cursors when all posts have succeeded; it brings the edits of the user back as commands, which
-- the agents take. Commands from DCS write fields of devices, and the threshold poller reads the same
-- fields.
--
-- Bounds and fuel: a uint32 and an int32 are numbers below 2 ^ 32 with the wrap-around written out;
-- an int (64 bits) is a number where the code only adds lengths to positions. A decoding loop has
-- the length of the frame and one as its fuel: every round moves forward by at least a byte.
--
-- Not modelled: sockets, gRPC, files, and SQL but for the UPDATE of
-- SetLinkActive, the upserts of cursors and commands, and the queries of the forwarder, whose joins
-- give the rows of a table; logging; the
-- goroutines around the parts, whose locks make each operation one step. A packet, its protobuf
-- encoding and what encoding/json finds in it are parameters (Queue.Codec), and so are the texts
-- that strings and strconv make, the hash of hash/fnv and the methods of the database
-- (Ingest.Worker.Store), whose statements Postgres runs. The lengths of JSON texts, the text of a
-- time and the answers of the Aggregator are parameters of Forward.
pub mod Prelude
pub mod Bacnet
pub mod Poller
pub mod Queue
pub mod Publisher
pub mod Ingest
pub mod Target
pub mod Command
pub mod Forward
pub mod Idr
mod Tests
