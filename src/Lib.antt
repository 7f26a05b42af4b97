-- ===== src/Lib.antt =====
-- Afkak is a client of Apache Kafka for Twisted. This library is about the parts of it that compute
-- without a reactor: the protocol, which turns requests into bytes and bytes into responses
-- (afkak/kafkacodec.py over afkak/_util.py and afkak/codec.py), the protocol instance that matches
-- responses with requests (afkak/_protocol.py), and the choices of partitions for messages
-- (afkak/partitioner.py) and for the members of a group (afkak/_group.py).
--
-- The parts, from the bytes up:
--   * Prelude, Result, Generator: Python's values as far as they are needed. Int has integers and
--     slices with Python's treatment of negative and large indices; a call that may raise returns
--     a Result, whose Error has a constructor per exception class; a generator is the list of what
--     it yields and the exception that ends it, if any.
--   * Wire: afkak/_util.py. Wire/Struct is Python's `struct` module for the format codes in use, in
--     big-endian order with its range checks; Wire/Reader is the passing of `data` and `cur` from
--     reader to reader, and `relative_unpack`; Wire/Text is Python's ASCII and UTF-8 codecs;
--     Wire/Strings has the eight functions `read_*` and `write_*` under their names.
--   * MessageSet: `_encode_message`, `_encode_message_set`, `_decode_message`,
--     `_decode_message_set_iter` of `KafkaCodec`, and in MessageSet/Create the functions
--     `create_message`, `create_gzip_message`, `create_snappy_message`, `create_message_set`.
--     MessageSet/Crc is `zlib.crc32`. The `while` loop of the decoder is `set_loop`; its `try` is
--     `on_error`, its body `after_entry` and `after_message`.
--   * Protocol: the requests and responses of `KafkaCodec`. Protocol/Data has the tuples of
--     afkak/common.py, Protocol/Grouping `group_by_topic_and_partition`, Protocol/Header
--     `_encode_message_header`, Protocol/Topics the arrays of topics and partitions that most
--     messages have, Protocol/Requests and Protocol/Responses the `encode_*_request` and
--     `decode_*_response` methods, Protocol/Group the metadata and the assignments that members of
--     a group exchange. Protocol/Responses/Broker is the other side: what a broker writes.
--   * Bootstrap: `KafkaBootstrapProtocol` of afkak/_protocol.py. Its methods are functions from the
--     state to the next state and the effects on deferreds and transport; `step` is what happens at
--     an event, a cancellation of a request's deferred (`addTimeout` of afkak/client.py) among them,
--     and `Reaches` relates the states to the effects on the way. Bootstrap/Books keeps the accounts.
--   * BrokerClient: `_KafkaBrokerClient` of afkak/brokerclient.py. Its methods and the callbacks of
--     its connector are functions from the state to the next state and the effects; the nested
--     functions of `_connect` are `try_connect`, `connected` and `connect_failed`. BrokerClient/Events
--     has the events and `Reaches`, BrokerClient/Change what one step may change, its other files what
--     each step does change and what follows for every state that a client comes to.
--   * Producer: `Producer` of afkak/producer.py, its methods as functions like those of BrokerClient;
--     Producer/Batches is `_send_requests`, Producer/Answers `_handle_send_response` with its nested
--     functions, Producer/Events the events and `Reaches`, the other files what holds of every state.
--     What the client, the partitioners and the reactor do is in the events, and the client answers
--     only payloads that it was given.
--   * Client: the cache of metadata of `KafkaClient` of afkak/client.py, a MetadataCache: its resets, its
--     queries, and the loop of `_merge_topic_metadata`, whose result is the cache and what was raised.
--     Client/Covered and Client/Merging have what each operation keeps, Client/Cached the events and
--     `Reaches`, Client/View the cache as a function from partitions to leaders, Client/Alike, Client/Replicated,
--     Client/Answers and Client/Queried what the queries answer after a merge.
--   * Dictionary: the deletion of a key, and sums over the entries of a dictionary.
--   * Assignment: `_ConsumerProtocol` of afkak/_group.py: `_round_robin_assignment`,
--     `generate_assignments`, `join_group_protocols` and `decode_assignment`.
--   * Partitioner: afkak/partitioner.py. `pure_murmur2`; `hashed_partition` and `partition` are the
--     methods `partition` of HashedPartitioner and RoundRobinPartitioner, whose random start is an
--     argument. Partitioner/Murmur has the hash of Kafka's Java client to compare with.
--   * Codec: `snappy_encode` and `snappy_decode` of afkak/codec.py.
--   * BrokerErrors: the subclasses of `BrokerResponseError` of afkak/common.py, the table `errnos`
--     and `raise_for_errno`.
--   * Tests: the theorems at concrete bytes.
--
-- A byte is a natural number, a text a list of code points, a dictionary an association list in the
-- order of insertion. Optional bytes and texts are Python's `None`. Requests are encoded into a
-- Result, since `struct.pack` raises for numbers out of range.
--
-- `set_loop` runs on fuel, of one round per byte of its buffer and one more: each round that goes on
-- has taken a whole entry, of 12 bytes at least. `decode_message_set_iter` has a bound on how deep
-- sets are nested in compressed messages, as the interpreter has; its value is a parameter.
-- `next_member` of Assignment has fuel for two rounds over the members, of which one that is whole
-- and the rest of another are enough, since each topic has a member that wants it.
-- The compressors of `gzip` and of the package `snappy` are parameters, in Compressors and
-- Decompressors, with the hypotheses IsLossless and IsPython; the package `snappy` below
-- afkak/codec.py is a parameter too, Snappy, with the hypothesis IsSnappy. `encode_blocks` and
-- `decode_blocks` of Codec have a round for each byte, which blocks one behind the other never use up.
--
-- Not modelled: the texts of exceptions and of log lines; the requests and connections of
-- afkak/client.py, afkak/consumer.py and the coordinator of afkak/_group.py, which drive Twisted's
-- reactor and its deferreds; of afkak/producer.py `_next_partition`, the timer, the lengths of delays
-- and the first half of `stop`; the tests and the tools.
pub mod Prelude
pub mod Result
pub mod Wire
pub mod Generator
pub mod MessageSet
pub mod Protocol
pub mod Dictionary
pub mod Bootstrap
pub mod BrokerClient
pub mod Assignment
pub mod Partitioner
pub mod Producer
pub mod Codec
pub mod BrokerErrors
pub mod Client
pub mod Tests
