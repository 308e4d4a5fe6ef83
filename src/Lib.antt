-- ===== src/Lib.antt =====
-- The Whisper protocol, version 6 (package whisperv6). A node keeps a pool of envelopes, each an
-- encrypted message with a topic, an expiry and a proof of work. Envelopes come from peers or from
-- the node itself, pass the checks of `add`, are kept until they expire, go to the filters that
-- are subscribed, to a mail server, and to the peers that lack them.
--
-- Parts and files, bottom up:
--   Base          library names, Boolean tests, lists, outcomes, association lists
--   Constants     whisperv6/doc.go
--   Platform      what comes from floating point, the crypto, rlp and cipher packages: parameters
--   Sets          the hash sets of the mapset package: an interface with its laws
--   Topic, Bloom  whisperv6/topic.go; TopicToBloom, BloomFilterMatch, addBloom, isFullNode
--   Bytes         the helpers on byte slices at the end of whisperv6/whisper.go
--   Envelope      whisperv6/envelope.go: an envelope with its cached proof of work, hash and bloom
--   Events        whisperv6/events.go
--   Message       the sender's half of whisperv6/message.go: layout, padding, signature
--   Received      the receiver's half: ValidateAndParse
--   Encryption    the encryption of whisperv6/message.go, OpenAsymmetric and OpenSymmetric
--   Pool          the pool in whisperv6/whisper.go: the locked parts of add and of expire
--   Settings      the settings in whisperv6/whisper.go and updateBloomFilter
--   Admission     the checks of add, in their order
--   Node          add, Send, postEvent and postP2P: pool, queues and mail server together
--   Protocol      runMessageLoop's case of a batch of envelopes; ErrorToEnvelopeError
--   Peer          whisperv6/peer.go: handshake, mark, expire, broadcast
--   Filters       whisperv6/filter.go with the stores of messages, and Open of whisperv6/envelope.go
--   Requests      the Validate methods of whisperv6/doc.go
--   MailServer    whisperv6/mailserver_response.go
--   Keys          the key stores of whisperv6/whisper.go
--   Seal          Seal and powToFirstBit of whisperv6/envelope.go
--   Wrap          Wrap of whisperv6/message.go
--   Packets       runMessageLoop of whisperv6/whisper.go: every packet code, and the loop
--   Host          the running node: processQueue, processP2P, HandlePeer, the calls that talk to one
--                 peer, the settings that peers are told of, and a relation of the steps that all of
--                 them take in any order
--   Api           whisperv6/api.go: Post, the filters of Messages and NewMessageFilter, polls
--   RateLimiter   whisperv6/rate_limiter.go
--   Examples      concrete inputs
--
-- A Go function with a pointer receiver takes the record and returns the new one. A panic (an index
-- out of range, a nil pointer) is `none`, `panic`, `crash` or `panics`; an error is a value. A
-- hash of 32 bytes is the number that it spells. Unsigned 32-bit arithmetic is written with its
-- wrap-around (`u32`, `sub32`); times are given as arguments. A send on a full queue is the outcome
-- `waits`. The search for a proof of work runs by the clock: its fuel is the number of readings of the
-- clock, and what the clock says at each is an argument. Every other loop runs over a list or counts
-- down.
-- `add` and the other functions fill an envelope's caches also for log lines; an envelope that is
-- refused is returned here as it came. A goroutine that runs after a delay is a step of its own.
--
-- A step of the running node is one whole handler: a packet, a round of a queue, a tick, a call. Steps
-- come in any order, but two handlers do not interleave inside.
--
-- Not modelled: the bytes of packets but for an envelope's and a batch's hash, stores of messages that a
-- user injects, the starting and stopping of goroutines and timers, texts of topics, logging, metrics,
-- generated JSON code, the RPC client in shhclient/client.go, and the vendored packages.
pub mod Base
pub mod Constants
pub mod Topic
pub mod Platform
pub mod Bloom
pub mod Bytes
pub mod Envelope
pub mod Sets
pub mod Events
pub mod Message
pub mod Received
pub mod Pool
pub mod Settings
pub mod Admission
pub mod Node
pub mod Requests
pub mod MailServer
pub mod Peer
pub mod Protocol
pub mod Encryption
pub mod Filters
pub mod Examples
pub mod Keys
pub mod Seal
pub mod Wrap
pub mod Packets
pub mod Host
pub mod Api
pub mod RateLimiter
