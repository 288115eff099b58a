-- ===== src/Lib.antt =====
-- go-wsc: the core of a WebSocket message hub.
--
-- The program keeps the connections of users on a node, delivers messages to them, and protects itself
-- when more arrive than it can write. A message (models/) has a type, a priority and perhaps a
-- classification, from which the guarantee follows that it is delivered with. Envelopes from the message
-- bus (broker/) are checked, recognised when they are redelivered, and handed to the hub. The hub asks
-- the admission gate (overload/) for a verdict; ephemeral messages go through the coalescer, messages of
-- a group through the aggregator, and broadcasts are paced by the shaper. While a user's offline
-- messages are replayed, live ones wait at the replay gate (messaging/). A connection (models/client.go)
-- counts the frames it has not written; the sum over the connections is the backlog that the admission
-- gate reads.
--
-- The files and what they model:
--   Models/MessageType, Models/MessagePriority: models/message_type.go, the types with their predicates,
--     categories and default priorities.
--   Models/Enums: models/enums.go and models/device_type_mapper.go, the enumerations with behaviour.
--   Models/Classification: models/classification.go, the score of a message.
--   Models/HubMessage: models/delivery_guarantee.go, ResolveGuarantee over the fields that it reads.
--   Models/Client: models/client.go, TrySend, TrySendControl, MarkClosed and CompletePendingWrites as
--     whole calls (Models/Client) and as atomic steps of many threads (Models/Client/Interleaving).
--   Overload/Shaper, Overload/Admission, Overload/Coalescer, Overload/Aggregator, Overload/DelayQueue,
--     Overload/Metrics:
--     overload/tokenbucket.go, overload/admission.go, overload/coalescer.go, overload/aggregator.go,
--     overload/delay_queue.go and overload/overload_metrics.go.
--   Routing: routing/route.go, the readers of routing/propagation.go, and constants/normalize.go.
--   Broker/Dedup, Broker/Envelope, Broker/Consumer: broker/dedup.go, broker/envelope.go and
--     broker/consumer.go.
--   Messaging/ReplayGate: messaging/replay_gate.go.
--   Messaging/Ack: messaging/ack.go, the messages that wait for an acknowledgement and, in
--     Messaging/Ack/Wait, the waits. A wait takes a list of the events that wake it.
--   Messaging/Delivery: messaging/delivery_fallback.go, messaging/client_delivery.go and the loop of a
--     broadcast in messaging/dispatcher.go, with what they call of models/client.go,
--     messaging/record_writer.go and hub/interfaces.go. It joins the gate, the coalescer, the
--     connection and the counters.
--   Connection/Registry, Connection/Refs, Connection/Observers: connection/sharded_registry.go, the registry
--     with its reverse indexes and the index of the observers.
--   Hub/NodeIndexCache: hub/node_index_cache.go, the cache of the nodes where a user is.
--   Connection/SlowConsumer, Connection/ControlLane: connection/slow_consumer.go, the rounds of the scanner,
--     and connection/control_lane.go.
--   Base: shared helpers: tests, lists, Go's integers and maps, strings as bytes, sharded maps.
--
-- State is passed along: an operation takes the state and returns the new one with its results. In a
-- theorem on whole calls each call is one step, and the theorem speaks of calls one after the other. Many
-- calls of the source are several steps, each under a lock of its own or one atomic operation, so that
-- other calls can come between. Where that is modelled, the steps stand in files of their own: the
-- counters of a client in Models/Client/Interleaving; `hold` and `end` of the replay gate, which make
-- deliveries after the unlock, in Messaging/ReplayGate/Threads; `Offer` and `Drain` of the coalescer,
-- whose size is counted outside the lock, in Overload/Coalescer/Interleaving; `Offer` and `Flush` of the
-- aggregator, which lock one shard at a time, in Overload/Aggregator/Interleaving. Elsewhere interleaved
-- calls are left out: `Seen` of the window of keys locks the window and then a shard, and `AddClient` and
-- `RemoveClient` of the registry lock the users, the owners and then each index, and two of them for the
-- same id can overlap in the source. The clock is an argument. An int64 is an integer that wraps at 2 to
-- the 63rd (`int64`), an int32 at 2 to the 31st, and a uint32 product is taken modulo 2 to the 32nd. A map
-- is a list of entries with distinct keys; where Go leaves the order of a `range` open, the model takes
-- that of the list. Enumerations of strings are strings, so that values outside the declared ones are
-- covered.
--
-- Fuel: the loop of `Seen` that catches up with the clock (`catch_up`) takes fuel, and `seen` gives it
-- one round more than the nanoseconds since the last swap, since every round takes off a period of a
-- nanosecond or more. With a period of 0 the loop of the source does not end, and `seen` is `none`.
--
-- Parameters: the consumer's delivery function is an argument of `handle`, with a state of its own, and
-- nothing is assumed of it. A delivery at the replay gate, and a frame of a client, is a value of any
-- type. The choice of a default by `mathx.IfLeZero` is an argument of the acknowledgement manager, and that
-- by `mathx.IfNotEmpty` and the writing of a message as JSON are arguments of a delivery; nothing is
-- assumed of them. The order in which RangeParallel of another package reaches the clients is an argument
-- of the loops in parallel, which is to reach each client once.
--
-- Not modelled: goroutines, tickers and channels beyond their effect on the state; network input and
-- output (client/, transport/), stores on Redis and gorm (adapter/), the cluster (cluster/), the external
-- bus (publisher/), generated code (models/pb/), statistics and logging; and, so far, the
-- lifecycle of a connection (connection/), groups (group/), batches (batcher/), broadcasts and the
-- offline store (messaging/), and the lifecycle of the hub and its
-- queries of other nodes (hub/).
pub mod Base
pub mod Broker
pub mod Connection
pub mod Hub
pub mod Messaging
pub mod Models
pub mod Overload
pub mod Routing
