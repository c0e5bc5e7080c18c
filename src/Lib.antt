-- ===== src/Lib.antt =====
-- The broker plugin: the Go code of src/ in the repository, a Mosquitto plugin that authenticates
-- MQTT devices, checks the topics that they use, and forwards their presence and their messages to
-- NATS.
--
-- The parts, and how they interact. The broker calls four callbacks (src/plugin/main.go). CONNECT
-- goes through `Authenticate` (src/plugin.go), which asks the auth store for the entry of the
-- device (src/auth_store.go: Pebble, MinIO, then HTTP by src/http_auth.go), tests the credentials,
-- and remembers the client's session. ACL checks are pure (src/acl.go). A message or a disconnect
-- looks the session up and publishes through the bounded queue of src/nats_publisher.go, whose
-- workers send to NATS. A second NATS subscription (src/fanout_consumer.go) invalidates the first
-- layer of the store. src/runtime_init.go and `mosquitto_plugin_init` build all of it from the
-- options that src/config.go reads.
--
-- The files, and the source of each:
--   Acl            src/acl.go: parse_username, parse_topic, check_acl are parseUsername, parseTopic,
--                  CheckACL. Acl/Topic and Acl/Allowed have the proofs.
--   Entry          src/auth_entry.go: AuthEntry, AuthorizesPassword, AuthorizesCertSerial.
--   AuthStore      the interface AuthStore and its errors, of src/auth_store.go.
--   TieredStore    the rest of src/auth_store.go: get, invalidate, close and the layers; Interface
--                  has Pebble and MinIO as parameters, PebbleJson the values in Pebble, Layers and
--                  Cache the proofs, Books those about the counters. TieredStore/Shared is the store
--                  under several callers at once.
--   HttpAuth       src/http_auth.go: NewAuthClient and LookupEntry; Projection: its JSON decoders.
--   Session        the session map of src/plugin.go.
--   Runtime        PluginRuntime and the publish methods of src/plugin.go; Runtime/Ingress proofs.
--   Auth           Authenticate and CompareLocal; Auth/Checks and Auth/Decision have the proofs.
--                  Auth/Report has the call on the logger of each branch, Auth/Reported which of
--                  them an operator sees, Auth/Discreet and Auth/Bounded what they give away.
--   Callbacks      goOnBasicAuth, goOnAclCheck, goOnDisconnect, goOnMessage of src/plugin/main.go;
--                  Callbacks/Sequences has the proofs about several calls in a row,
--                  Callbacks/Traces those about any sequence of them, with the goroutines between,
--                  Callbacks/Access which topics an admitted client is granted, Callbacks/Presence
--                  the advisories, Callbacks/Delivery the messages from the callback to a
--                  subscriber, Callbacks/Deadline the deadline of a CONNECT, and
--                  Callbacks/DocumentedName the identity in a certificate.
--   Certificate    src/plugin/trampolines.c: get_cert_serial_hex and get_cert_cn, over what OpenSSL
--                  says of a certificate.
--   Revocation     Auth, TieredStore/Shared and Fanout together: which entries admit a device, and in
--                  Revocation/FailClosed which documents.
--   Publisher      src/nats_publisher.go, one operation at a time; Publisher/Machine has its
--                  goroutines and its lock as a step relation, with Invariant, Reachable, Drain,
--                  Termination and, for how the two agree, Sequential.
--   Payloads       src/payloads.go and src/format.go; Payloads/ReadBack has a reference reader of the
--                  documents, which is not in the repository.
--   Fanout         src/fanout_consumer.go.
--   Config         src/config.go: LoadConfig.
--   Init           src/runtime_init.go, NewTieredAuthStore, and in Init/Plugin the two entry points
--                  of src/plugin/main.go; Init/Ready, Init/Unused and Init/Shutdown have
--                  the proofs.
--   Lifecycle      The process from its load to its unload: the entry points, the callbacks and the
--                  goroutines as one step relation. Lifecycle/Live has what holds of the runtime at
--                  any time, Lifecycle/Traced leads back to Callbacks/Traces, Lifecycle/Decision
--                  is about the answers to CONNECTs, Lifecycle/Stored about the store,
--                  Lifecycle/Books about its counters, and Lifecycle/Accounted about those of the
--                  publisher.
--   Connect        src/connect.go: ConnectNATS and the hooks of the connection.
--   Log            src/log.go: the loggers and truncate.
--   GoText, Json   what the code uses of Go's strings, strconv, unicode/utf8, encoding/json.
--   Platform       bcrypt, Unicode case folding and the text of times, which are parameters.
--   Common         shared helpers; Fixtures: concrete data for the Tests modules.
--
-- The model. A string is the list of its bytes, and JSON is a syntax tree: parsing its bytes is left
-- to encoding/json, `none` where they are no document. Shared state is passed explicitly; a method
-- returns its result and the new state. What the network, the clock and the disk answer while a
-- method runs is an argument (`World`, `Answers`, a `Pebble`). Counters wrap at 2^64, `int` and
-- durations at 63 bits and a sign. An error value is one of the few kinds that a caller tells apart.
-- A null C pointer is `none`; a C string is its bytes before the first zero byte.
--
-- Bounds. The only fuel is in `itoa` (GoText/Decimal): a number n is given n + 1 digits of it, which
-- is enough, as atoi-itoa there implies. All other recursion is structural. The ghost fields
-- `accepted` and `received` of `Machine` record what was sent and received, and nothing reads them.
--
-- Not modelled: the log lines but those of src/connect.go and of `Authenticate`; in the C code of
-- src/plugin, the four trampolines, which only call the Go callbacks, the allocations, and the
-- version number; what nats.go does with its options; the transport of net/http; contexts (an
-- expired one is a failure among the answers; only the deadline is computed); the interleaving of
-- two callbacks, which the broker calls from one thread; and the waiting in Drain, of which only the
-- closing is an operation: the workers' progress is in Publisher/Machine.
pub mod Common
pub mod GoText
pub mod Acl
pub mod Platform
pub mod Entry
pub mod AuthStore
pub mod Json
pub mod Log
pub mod Config
pub mod Publisher
pub mod Connect
pub mod Payloads
pub mod Session
pub mod TieredStore
pub mod HttpAuth
pub mod Projection
pub mod Fanout
pub mod Runtime
pub mod Auth
pub mod Certificate
pub mod Callbacks
pub mod Revocation
pub mod Init
pub mod Lifecycle
mod Fixtures
