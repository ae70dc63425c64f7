-- ===== src/Lib.antt =====
-- reconcileflow: a reconciliation engine and its streaming replay, of the Python package under
-- src/reconcileflow.
--
-- The parts and their files. Base is the shared library: orders, sorting, dicts, Boolean tests.
-- Decimal is the arithmetic of decimal.Decimal under the context of src/reconcileflow/numeric.py.
-- Models is src/reconcileflow/models.py: records, tolerances, matches, rejects, with the counters
-- in Models/Counters and the content hashes in Models/Digests. Rules is
-- src/reconcileflow/rules.py: the generators m0_reference, m1_exact, m2_tolerant, m3_aggregate;
-- Rules/Licence says what each rule permits. Engine is src/reconcileflow/engine.py: reconcile
-- cuts the records into blocks by blocking_key, and reconcile_block resolves a block
-- (Engine/Resolve) and audits what is unmatched (Engine/Audit). Stream is
-- src/reconcileflow/stream.py: feed takes one journal entry, Stream/Watermark and
-- Stream/Components find what may become final, Stream/Evaluate turns the engine's result into
-- proposals, Stream/Emit appends a decision, Stream/Settle finalises, Stream/Replay is the
-- handler of the journal, and Stream/Results is the derived status and effective state. M0 is the
-- decision rules of src/reconcileflow/m0: M0/Stability is stability.py, M0/Attribution the
-- validated inputs of attribution.py and M0/Verdict its tree and perturbation. Correlation is of
-- src/reconcileflow/correlation: Correlation/Assignment and Correlation/Graph the validation and
-- the components of the candidate graph of assignment.py; Correlation/Topology is topology.py,
-- whose _Fields is Correlation/Topology/Toml, its parsing Parse, its ceilings Ceiling, its rules
-- Rules and load Load; Correlation/Exact is exact.py, which joins the observations of a request
-- on the keys that the ceilings of a topology name: the duplicates in Correlation/Exact, _join in
-- Correlation/Exact/Join, and exact_links and observed_links in Correlation/Exact/Links.
-- Observation is src/reconcileflow/observation.py, over the journal and the result of a replay:
-- series in Observation/Series, wilson in Wilson, match_rate in Drift, the alerts in Alerts and
-- observe in Observe. What the source appends to or updates in place (matches, rejects, counters,
-- the fields of _Replay) is a state that each function takes and returns.
--
-- Conventions. A date is its ordinal, and the integer settings are non-negative; the days that the
-- observation subtracts raise the OverflowError of the source, which is left out elsewhere: a
-- horizon may lie beyond the last date here, and a watermark whose lateness exceeds its date is 0.
-- A text is the list of its code points, so `sorted` on texts is the lexicographic order. A dict
-- is an association list in insertion order. A Decimal is a coefficient and a number of places: no
-- NaN, no infinity, no negative number of places. The sign of a zero and the places of a computed
-- result, which only printed forms show, may differ from the source's; those of a given value,
-- which _achievable reads, are the source's. What the observation computes with decimals outside
-- the engine's context (the margin subtracted and added, and quantize) is the caller's context's,
-- a parameter that may raise. The sha256 digest, cut to 16 digits, and the printed form of a
-- decimal are parameters, and so is statistics.stdev, decimal's square root, what Python prints of
-- a TOML value and of a fraction, and tomllib.loads. An exception of the source is a value of
-- Base/Raised. A side is one of two constructors, so that _check_side cannot fail; in the
-- observation a capture time is the UTC day it falls on, if it has one.
--
-- Fuel. The loop of _settle has one more round than the block has open records, and running out
-- is an error of its own, out_of_fuel. The search for the root in _components has as many steps
-- as there are keys. The walk of _components in the assignment has the source's own bound. The
-- number of digits of a coefficient has the coefficient as fuel, and the printed form of a number
-- the number plus one.
--
-- Not modelled: src/reconcileflow/provenance.py, adapters, the rest of correlation (flow and
-- timing, which compute statistics, and the minimum cost assignment), the ruleset and engine
-- version that stand in every decision, the text of an exception, and the programs under
-- m0-harness and tools.
pub mod Base
pub mod Decimal
pub mod Models
pub mod Rules
pub mod Engine
pub mod Stream
pub mod M0
pub mod Correlation
pub mod Observation
pub mod Tests
