-- ===== src/Lib.antt =====
-- A model of gno-watchtower: sentinels collect data from a validator's node and post it to a
-- watchtower, directly or through a beacon, and the watchtower checks who sends it and passes it on.
--
-- The files, and the code that each one models:
--   Base            shared types, maps as association lists, strings, and 64-bit words
--   Watchtower.Auth       internal/watchtower/auth/auth.go: tokens, failures, bans and addresses
--   Watchtower.Config     internal/watchtower/config/config.go: Load and its checks
--   Watchtower.Stats      internal/watchtower/stats/stats.go: bytes received
--   Watchtower.RateLimit  internal/watchtower/ratelimit/ratelimit.go: a limiter for each validator
--   Watchtower.Handlers   internal/watchtower/handlers/handlers.go: the chain from a request to its
--                         response; it calls Auth, RateLimit and Stats
--   Watchtower.Forwarder  internal/watchtower/forwarder/forwarder.go: logs, from a payload to a push;
--                         Rpc and Metrics are rpc.go and metrics.go beside it: the lines extracted from
--                         a payload, which Posts passes to VictoriaMetrics
--   Beacon.Server   internal/beacon/server/server.go: a request, from a sentinel to the watchtower
--   Beacon.Augment  internal/beacon/augment/augment.go: the hook of the server that adds the sentry's view
--   Beacon.Config   internal/beacon/config/config.go: the settings, their checks, and the keys they name,
--                   which Noise.Keys reads and Noise.Handshake checks
--   Json            decoded JSON, and what encoding/json makes of it
--   Gpub            pkg/gpub/gpub.go: the text of a validator's key, which Forwarder.Rpc uses
--   Logger                pkg/logger/logger.go: keys for the journal, and levels
--   Noise.Frame, Noise.Conn  pkg/noise/conn.go: frames, and the encrypted connection
--   Noise.Handshake       pkg/noise/config.go and handshake.go: accepted peers, and the handshake
--   Noise.Keys            pkg/noise/keys.go: keys in hexadecimal, and a keypair's two files
--   Noise.Listen          pkg/noise/listen.go: the listener, as a step relation
--   Sentinel.Logs.Source  internal/sentinel/logs/source.go: a raw line as a JSON object
--   Sentinel.Buffer       internal/sentinel/sender/buffer.go: the bounded queue
--   Sentinel.Retry        internal/sentinel/sender/sender.go: one post, and its repetition
--   Sentinel.Delta        internal/sentinel/delta/delta.go: the filter of unchanged values
--   Sentinel.App          internal/sentinel/app/run.go: the flushes of the buffers; it calls Buffer, Retry
--                         and Stats
--   Sentinel.App.Lines    the same file, Run: the channel, the buffer and the flushes of one collector
--   Sentinel.Otlp         internal/sentinel/otlp: the relay of metrics, and the names it filters out
--   Sentinel.Resources    internal/sentinel/resources: the figures of the host and the container, through
--                         Delta
--   Sentinel.Config       internal/sentinel/config/config.go, and New of the sender
--   Sentinel.Config.ByteSize, Detect, Generate  sizes with units; detect.go and generate.go beside it: what
--                         generate-config finds on the host, and the annotated lines that it writes
--   Sentinel.Doctor       internal/sentinel/doctor: the checks of the doctor and its exit code; it reads
--                         Config, Metadata and the levels of Logs
--   Sentinel.Logs         internal/sentinel/logs/collector.go: the loop of Run, and LevelRank of
--                         pkg/logger/logger.go
--   Sentinel.Metadata     internal/sentinel/metadata/collector.go: the node's configuration, and what
--                         Watchtower.Forwarder makes of it
--   Sentinel.Self         internal/sentinel/self/collector.go: the statistics as a payload
--   Sentinel.Stats        internal/sentinel/stats/stats.go: bytes sent and drops
--   Sentinel.Rpc          internal/sentinel/rpc/collector.go: one poll of the node; it calls Delta
--
-- State is passed explicitly: each operation takes the state and returns the new one. The code's
-- mutexes make an operation atomic, so an execution is a list of operations; in Watchtower.Auth.Failures
-- requests overlap, as lists of the critical sections that they consist of. A Go map is an
-- association list, and an instant is a number of nanoseconds after the zero `time.Time`, passed to
-- the operation that reads the clock. An `int64` that can overflow keeps its wrap-around. The
-- loops of the code recurse on a list or on the number of attempts left, except `write_loop` of
-- Noise.Conn, which runs on the number of bytes, as each round sends one or more
-- (bytes left without fuel are the error `endless`, which is shown not to occur), and `turns` of Noise.Handshake,
-- whose fuel is the number of messages: the pattern XX has three.
--
-- Not modelled: input and output, the commands, the watchtower's Prometheus registry, the client of the
-- node's RPC, the sources of log lines, the beacon's doctor, the TOML decoder, JSON as text, HTTP and zstd. What the code takes from a library is a parameter of the definitions that use it.
pub mod Base
pub mod Beacon
pub mod Gpub
pub mod Json
pub mod Logger
pub mod Noise
pub mod Sentinel
pub mod Watchtower
