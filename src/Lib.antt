-- ===== src/Lib.antt =====
-- remote-write-inspector: a Prometheus remote-write endpoint that receives samples, judges their
-- quality and counts what it finds, with a load generator. This library models internal/inspector and
-- the two programs of cmd, and proves what makes them correct.
--
-- The parts of the program and the files that model them:
--   Hash        internal/inspector/hash.go: the canonical hash of a label set, the name, host and
--               fingerprint of a series.
--   Cache       internal/inspector/cache.go: `circularCache` (Cache.antt) and the sharded
--               `stateCache` (Cache/Shards.antt), in which the inspector remembers samples and paths.
--   Validate    internal/inspector/inspector.go: `validateSeries`.
--   Identity    internal/inspector/identity.go: the identity set, and what a request's headers say.
--   Diagnostics internal/inspector/diagnostics.go: the sampler of finding logs, bounded log labels.
--   Capture     internal/inspector/capture.go: the capture session with its budgets and counters.
--   Config      internal/inspector/config.go: `normalize`, the projections and their flag.
--   TopSeries   internal/inspector/metrics.go: the collector of the series with the most findings.
--   Inspector   internal/inspector/inspector.go: `New`, `inspectReceived` and the detectors, which use
--               Hash, Validate, Identity and Cache, and pass what they observe on to the counters, to
--               TopSeries and to Diagnostics, and the samples to Capture; Inspector/Admission.antt:
--               the admission of requests, and the steps of concurrent ones.
--   Server      internal/inspector/server.go: `readLimited`, and `receiveHTTP` (Server/Receive.antt), which
--               admits, reads and decodes a request and passes it to Inspector; `NewServer`
--               (Server/Start.antt) and the requests that its routes pass on (Server/Serving.antt).
--   Loadgen     cmd/rwi-loadgen/main.go: the load generator, its flags and configuration, its requests
--               and their headers, its workers (Loadgen/Workers.antt), its statistics and reports.
--               Loadgen/Verdicts.antt joins it to Inspector and Validate, Loadgen/Identified.antt to
--               Identity, and Loadgen/Delivered.antt to Server.
--   Metrics     internal/inspector/metrics.go: the collectors that `newMetrics` registers, those of a
--               capture session, and what is assumed of a registry (Metrics/Registry.antt).
--   Main        cmd/remote-write-inspector/main.go: the flags and the configuration they make, and the
--               program from its start to its exit code (Main/Process.antt).
--   Prelude     the names, number types and lemmas that the parts share.
--   Tests       the theorems at concrete inputs.
--
-- How the code is modelled. Texts are lists of bytes. A Go `int` or `time.Duration` is an unbounded
-- signed integer (Prelude/Int.antt) where the code does not rely on its width; where a comment says
-- so the wrap-around is written out. Go maps are association lists. A run-time panic is `none`. Every
-- reading of the clock is an argument of the call, and nothing is assumed of its order unless a
-- hypothesis says so. Mutexes make a call atomic, so that concurrent requests are a sequence of calls.
--
-- Loops are structural recursion over the data; the two that are not run on fuel: `search`, for which
-- one round for each index and one more is shown to be enough, and the digits of a number, of which
-- there are at most as many as the number is large.
--
-- Not modelled: the third-party libraries (xxhash, snappy, protobuf, the PromQL parser, the Prometheus
-- client), whose uses are parameters, as are floats, the random numbers and the HTTP transport; the
-- parsing of flag texts; the handling of a metrics request but for what it does to the top series; the
-- logger; the fields of a capture record; the values of the duration histograms, and the texts of
-- error responses.
pub mod Prelude
pub mod Hash
pub mod Cache
pub mod Validate
pub mod Identity
pub mod Diagnostics
pub mod Capture
pub mod Config
pub mod TopSeries
pub mod Inspector
pub mod Server
pub mod Metrics
pub mod Loadgen
pub mod Tests
pub mod Main
