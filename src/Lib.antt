-- ===== src/Lib.antt =====
-- Verification of NekoStack: the schema package (packages/schema/src) with its builders, diff
-- classifier, registry, freshness check and migrations, and the migrate-runner package
-- (packages/migrate-runner/src) that applies migrations to records.
--
-- A schema is a tree of nodes (packages/schema/src/ir/nodes.ts). Schema/Ir.antt has the types
-- with the source's constructors, Schema/Issues.antt the issues and results of errors/issue.ts.
-- The directory Schema/Diff models registry/diff.ts: Changes has the severities and
-- computeWorstSeverity, Compare the comparison of values that may be undefined, Axes the
-- metadata, default, enum and literal axes, Absence the absence axis, new fields and unknown
-- keys, Refinements the refinement axis, and Walk the recursion of walk and diffObject and
-- diffNodes itself. A thrown UnsupportedNodeKindError is a value of the type Diffed.
-- Schema/Runtime.antt is safeParse of runtime/parse.ts, over the compiled validator and
-- normalizeIssues as parameters, Schema/Runtime/Validate.antt the functions parse and validate of
-- the same file, and Schema/StripDefaults.antt runtime/strip-defaults.ts, which validate uses.
-- Its module Takes describes what a schema takes, with the wrappers of generators/zod-mapping.ts
-- in their order, over a parameter for the check of a node's own kind, refinements and keys; it
-- describes the validator and translates no code.
--
-- The builders (packages/schema/src/builders) make nodes. Schema/Builders.antt has the classes by
-- what their instances hold, the constructors and the modifiers that all schemas share, Refine
-- the refinements of primitives.ts and array.ts, Shapes the object schemas with their shape, a
-- list of keys with their schemas in insertion order, Compose the operations of object.ts that
-- give a new object schema, Merge merge, and Causes what these throw, with its text. A thrown
-- error is a value. A fluent call gives a new schema, so a chain of calls is a composition of
-- functions.
--
-- Schema/Registry.antt is the registry, a map of maps, with findSchema for a given version, and
-- Schema/Registry/Build.antt buildRegistry of registry/build-registry.ts, in which SHA-256 and
-- irHash are parameters. Schema/Jsdoc.antt has the regular expressions with which the two readers
-- of provenance find a comment and its fields. Schema/Provenance.antt is
-- registry/parse-provenance.ts, with JSON.parse as a parameter, and Schema/Check.antt
-- registry/handlers/check.ts, which classifies committed artifacts with it.
--
-- Migration/Types.antt models migrations/types.ts. Migration/Chains.antt is the depth-first
-- search of migrations/plan-migration.ts: dfs changes a set, an array and the list of results in
-- place, and the model passes the three along as a record. Its fuel is the number of versions
-- with outgoing migrations plus two: each call but the first enters a version that was not
-- visited before, and only a version with outgoing migrations calls further. Migration/Plan.antt
-- is planMigration, Migration/Verify.antt is verifyMigrationProvenance of
-- migrations/verify-provenance.ts. Migration/Provenance.antt is migrations/parse-provenance.ts,
-- Migration/Registry.antt buildMigrationRegistry of migrations/build-migration-registry.ts, with
-- the filing of an entry in Migration/Filing.antt, and Migration/Stub.antt migrations/stub.ts,
-- with toLowerCase of the engine as a parameter. The stub's header is what the reader of
-- Migration/Provenance.antt reads back.
--
-- The runner is in the directory Runner. Types has the options and the results of types.ts, Audit
-- the entries and the in-memory adapter of audit.ts, Preflight pre-flight.ts, Pipeline
-- per-record-pipeline.ts, and Results, Loop and Run the function run of runner.ts. The adapters,
-- the clock, the random run id and the abort signal are a record Host of functions on a world, of
-- which nothing is assumed; an awaited call returns the new world with its result or with what it
-- throws. The loop is a recursion on the list of records that the input stream yields, which may
-- end by throwing. A transform may return or throw and may change the world.
--
-- Js has what the source uses of its language: string templates, Map with insertion order, JSON
-- values with JSON.stringify, and thrown values. The numbers of the engine are a type parameter
-- with its order and its text. Numbers that the code only counts with are natural numbers without
-- a bound, and a clock that runs backwards gives an elapsed time of zero. Object keys that look
-- like array indexes, which the engine lists first, keep their place in the model. Keys named
-- `__proto__` are outside the model of what the builders and strip-defaults.ts build by
-- assignment (put, fields_of and strip_fields): there the engine sets the prototype and adds no
-- property, while the model adds one.
--
-- Not modelled: findSchema without a version, serialization and hashing of nodes, the generators,
-- normalizeIssues, the list, generate and diff handlers of the registry, the file adapters of the
-- runner, the config and cli packages, the lint rules and the web application. Freezing has no
-- effect on the values of the model and is left out.
mod Common
mod Js
mod Samples
pub mod Schema
pub mod Migration
pub mod Runner
