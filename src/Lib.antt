-- ===== src/Lib.antt =====
-- FastConf: layered configuration with typed snapshots and hot reload.
--
-- Configuration files, environment variables and providers give layers, which are JSON-shaped maps.
-- A reload merges them (confmap/deep.go, confmap/patch.go), runs transforms, decodes the tree into
-- the typed value, and publishes it as a snapshot (commit.go). One writer goroutine
-- (reload_queue.go) takes reloads, rollbacks (history.go) and plans one at a time. File and provider
-- events reach it through a coalescer (internal/coalesce). Flags in the value are evaluated by
-- package feature.
--
-- Which file models which part:
--   * Base: lists, dictionaries, texts as bytes, results and integers that the parts share.
--   * Confmap/Value: the `any` trees of package confmap, with typed nil maps and slices.
--   * Confmap/Path: Get, Set, Delete, Split and the dotted forms of confmap/path.go.
--   * Confmap/Deep: Deep, deepAt, mergeValue and strategicMergeList of confmap/deep.go.
--   * Confmap/Pointer, Confmap/Patch: the JSON pointers and RFC 6902 operations of confmap/patch.go.
--     Patch/Numbers is patchEqual and toNumber.
--   * History: the ring of history.go (newRing, Push, Snapshot, Find).
--   * Manager: commit, reload, Rollback, applyRollback, publishSnapshot, publishReloadError and
--     runReloadRequest of commit.go, reload.go, history.go and reload_queue.go. `run_all` is the order
--     in which reloadLoop takes its requests. What assembling leaves in the scanned directories and
--     the caches is an input of each request.
--   * Assembly: assemble of assemble.go and the loops it calls; Assembly/Sorting is the stable sort of
--     the standard library's slices package, as an insertion sort; Assembly/Scanned joins the scan
--     to it.
--   * Stages: runMerge and the checks of stages.go, and runStages and finding of pipeline.go. What
--     a layer's tree has become after its merge under merge keys is an input of the provenance.
--   * Writer: reloadLoop and the queues of reload_queue.go, the intake of consumeProviderEvents in
--     provider_watch.go, and Pause of file_watch.go, as interleaved steps. What a request does when it
--     runs is Manager's.
--   * Coalesce: Push, flush, Stop and joinUnique of internal/coalesce/coalesce.go, and the presets of
--     internal/coalesce/profiles.go.
--   * Profile: NewProfileSet, Compile, Eval and the parser of internal/scan/profile_expr.go;
--     Profile/Syntax is the grammar that it is measured against.
--   * Secret: the patterns, matchSegments, redactPatterns and matchesValue of
--     internal/secret/patterns.go.
--   * Secret/Plan: Apply and redact of internal/secret/plan.go, on the plans that reflection builds.
--   * Migration: NewChain, CurrentVersion, SetVersion and Run of transform/migration.go.
--   * Subscribe: Subscribe and notifySubscribers of subscribe.go, over the commits of Manager.
--   * Scan: Scan, collectProfileOverlays, overlayMatches, collectDir and classify of
--     internal/scan/scan.go. Scan/Files is readRegularFile, readBounded and ReadAllMax of
--     contracts/body.go; Scan/Axes is ResolveAxes and ApplyTo of axis.go and meta.go; Scan/Paths is what
--     they use of the standard library's path packages.
--   * Codec: the registry of codec/registry.go.
--   * Confmap/Labels, Confmap/Coerce, Confmap/Clone: the files of those names in confmap.
--   * Providers: providers/env/env.go in Env, providers/dotenv/dotenv.go in Dotenv, and
--     internal/providerutil/providerutil.go in Shared.
--   * Transform/EnvSubst: transform/envsubst.go, with its regular expression as a matcher.
--   * LayerCache: getOrDecode and getOrBuild of layer_cache.go.
--   * Diff: appendDiffs, jsonEqual and diagnosticDiff of diff.go.
--   * Transform: Aliases, DeletePaths and RawCapture.Transform of transform/transform.go.
--   * Provenance: RecordTree and Explain of internal/provenance/index.go.
--   * Feature: Rule.Evaluate, matches, inBucket and Eval of feature/feature.go.
--
-- Correspondence. A Go map is an association list that is read and written by key; every loop over
-- a map takes the list's order, and the theorems hold for any. Code that mutates returns the new
-- state, and an error ends in a result without one where the callers drop what was mutated. A
-- string is its bytes, and only ASCII letters are lowercased. Numbers are natural numbers, since
-- the counters and lengths here never get near 64 bits; array indices are checked against the
-- largest int as strconv.Atoi does. Typed integers are signed where a sign can occur. Definitions
-- recurse on their data, with three exceptions on fuel. The profile parser gets four units for each
-- byte and four more: each call of the descent takes one, and no more than four stand between two
-- bytes. The loop of a migration chain gets the distance from the version to the target, since
-- every migration of a chain leads upwards. The decimal digits of n get n + 1, since each division
-- by ten makes the number smaller.
--
-- Inputs instead of definitions: decoders, the file system, the environment and the host name, strconv.ParseFloat,
-- the YAML decoder, the assembled fingerprint, the pipeline's value and hash, contexts,
-- clocks, addresses of new snapshots, json.Marshal, SHA-256, comparators of subscribers, and the
-- integer that a float's bits stand for. A JSON patch enters as encoding/json decoded it.
--
-- Not modelled: input and output, logging and spans, reflection, third-party decoders and service
-- clients, and command lines.
pub mod Base
pub mod Assembly
pub mod Stages
pub mod Writer
pub mod Profile
pub mod Secret
pub mod Migration
pub mod Subscribe
pub mod Scan
pub mod Codec
pub mod Diff
pub mod LayerCache
pub mod Providers
pub mod Confmap
pub mod History
pub mod Manager
pub mod Coalesce
pub mod Feature
pub mod Provenance
pub mod Transform
