-- ===== src/Lib.antt =====
-- TwinVal Go backend, modelled and verified: from a sensor's request to the value that is served.
--
-- The program values properties from sensor readings. Each batch of readings is conditioned
-- (internal/condition), turned into five technical indicators, a Health Factor and a Real-Time
-- Property Market Value (internal/compute), tracked in a digital twin (internal/sync), quoted on an
-- exchange (internal/exchange) and recorded in a hash-linked ledger (internal/cryptochain). The
-- exchange and the digital twin call the functions of internal/compute; the ledger stores the
-- hashes of what internal/compute read and produced. Batches come from a webhook or a poller
-- (internal/ingest) or from simulated buildings (internal/ashrae); cmd/api routes each to its
-- property, and api serves the results over HTTP and WebSocket.
--
-- Files, and the code they model:
-- - Prelude: shared names, lists, texts (a Go string is the list of its bytes), integers and maps (an
--   association list, whose first entry of a key counts).
-- - Channel: buffered Go channels in a store, with a loop over subscribers; Channel/Store has their
--   laws, which Sync and Ingest share.
-- - Clock: durations and tickers of package time.
-- - Float: float64 as an interface, with the laws of IEEE 754 and of package math that the proofs
--   use (rounding is a parameter). Float/Order and Float/Within derive what several parts
--   need; Float/Fixed is a number system that meets the laws and runs.
-- - Compute: internal/compute/types.go (Compute/Types) and internal/compute/indicators.go
--   (Compute/Configs for the calibrations, Compute/Indicators for wohlerPenalty, ComputeSHF to
--   ComputeCI, ComputeHealthFactor, ComputeRTPMV and ComputeAllIndicators), with the
--   hypotheses in Compute/Valid, and the proofs in Compute/Bounds, Compute/Value,
--   Compute/Incentive, Compute/Aged and Compute/Defaults.
-- - Condition: internal/condition/types.go (Condition/Types), preprocess.go (Condition/Preprocess),
--   integrity.go (Condition/Integrity) and condition.go (Condition/Process). Condition/Groups has the
--   maps from keys to slices; package sort is a parameter there, and Condition/Sorted is a sort that
--   keeps its promises. Condition/Preprocess/Align is about AlignTimestamps. The
--   children of Condition/Integrity bound the four scores, and those of Condition/Process (Streams,
--   Clean) carry the bounds of the readings through Process.
-- - Exchange: internal/exchange/types.go (Exchange/Types), pricing.go (Exchange/Pricing),
--   volatility.go (Exchange/Volatility: the ring buffer) and state.go (Exchange/State: New, Update,
--   classifyState). State is the PropertyExchange record, passed and returned.
-- - Cryptochain: internal/cryptochain/types.go, hasher.go, chain.go (Append, Head, GetToken,
--   ToAuditMode) and verify.go (Verify), in the files of those names.
-- - Sync: internal/sync/types.go (Sync/Types), evolution.go (Sync/Evolution) and statemachine.go
--   (Sync/Machine: New, Update, Subscribe, applyUpdate, broadcast, shutdown, and the goroutine of
--   Run as a step relation over interleavings, with channels in a shared store).
-- - Ingest: internal/ingest/types.go (Ingest/Types), validate.go (Ingest/Validate), webhook.go
--   (Ingest/Webhook: handlePost, Start, Stop) and bms.go (Ingest/Bms: pollOnce, pollLoop). Both have
--   the subscribers of Ingest/Fanout. The callers, the HTTP server, the ticker and the end of a
--   context are step relations.
-- - Config: config/config.go.
-- - Ashrae: internal/ashrae/buildings.go and weather.go, in the files of those names, and sensor.go
--   (Ashrae/Sampling for the draws, Ashrae/Sensor for Next and ToRawSensorBatch).
-- - Api: api/handlers.go (Api/Registry for PropertyState and PropertyRegistry, Api/Handlers) and
--   api/websocket.go (Api/Hub).
-- - Server: cmd/api/main.go (Server/Bootstrap, Server/Pipeline for processBatch, Server/Cors,
--   Server/Demo and Server/Embedded for runEmbeddedSimulator, and Server/App for main and the loop of
--   runPipeline on its channel). Server/Served and Server/Valued join bootstrap and pipeline;
--   Server/Concurrent has calls of processBatch for one property as interleaved steps.
-- - Simulator: cmd/simulator/main.go (the loop of main in Simulator/Loop), and its payloads and whole
--   runs at the webhook in Simulator/Accepted and Simulator/Posted.
-- - The Tests modules apply the theorems at concrete data.
--
-- Methods under a mutex are one step each. The clock is an argument, read as often as the code reads
-- it. Counters of type uint64 wrap. Loops are structural recursions on what they range over, so no
-- fuel is needed. A panic is the result `none`. SHA-256, hex and the number formats of package fmt
-- are parameters. The caller of a channel is modelled by the step that takes its oldest element.
--
-- Pointers to a property live in the registry: what changes through one is written back under its
-- key. encoding/json, strconv, package sort, package strings and the random generators are
-- parameters; what the theorems ask of them stands among their hypotheses. int64 wraps where
-- timestamps, intervals and limits are computed.
--
-- Not modelled: the HTTP server, its routes and the WebSocket library, signals and logging, since
-- they are calls of other packages (a tick, a request and a signal are events); the parity tests of
-- validation, which read recorded data. The theorems on floats that assume finite values say so: an
-- overflow to infinity can turn into NaN.
pub mod Prelude
pub mod Float
pub mod Channel
pub mod Clock
pub mod Compute
pub mod Exchange
pub mod Cryptochain
pub mod Sync
pub mod Condition
pub mod Ingest
pub mod Config
pub mod Ashrae
pub mod Api
pub mod Server
pub mod Simulator
