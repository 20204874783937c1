-- ===== src/Lib.antt =====
-- The memory core of Echo Veil (src/echo_veil of the repository) and the gates in front of it,
-- modelled by shallow embedding.
--
-- The parts. A memory carries a layer contract (memory_layers.py): live, short-term, long-term or
-- contextual logic, with its provenance, its times and the history of its promotions. At run time a
-- memory is a vine (vine.py) in the workspace (workspace.py), which scores it against the intent
-- (proximity.py over vectors.py), lets it fade through twilight and marks it evicted; the metadata
-- index and the cold archive (archive.py) hold what left the workspace. The drift detector (drift.py)
-- watches the intents, the confidence matrix (confidence.py) gates generation, and conflicts settle
-- into fossils (conflict.py). The oracle (oracle.py) drives them: it observes an intent, moves what was
-- evicted to the lower tiers, and forgets.
--
-- In front of the memory, the local broker (agent_broker.py) queues the jobs of its callers for the
-- single worker; a preflight receipt (preflight_receipt.py) binds a turn to the context that the
-- memory gave it, is signed, and counts once; the readiness report (local_readiness.py, validated by
-- protocol_compat.py) says what protection a deployment has, from the evidence that the evidence store
-- (readiness_store.py) keeps.
--
-- The files.
--   Base          shared names; results for exceptions; lists, dicts, texts, integers and floats.
--   Json          dynamic values, `json.dumps` and the object hooks of _json.py.
--   Layers        memory_layers.py. Words: `" ".join(value.split())`. Validate: the `_validate_*`,
--                 `_parse_*` and `_live_expiration` helpers. Contract: the dataclasses, `__post_init__`
--                 (`construct`), `as_dict`, `to_json_bytes`, `is_expired`, `recommendations`. Moves:
--                 `promote`, `refresh_live`, `new_memory_contract`, `migrated_short_term_contract`.
--                 Decode: `from_json_bytes`. The other children hold the proofs.
--   Vectors       vectors.py and proximity.py.
--   Vine          vine.py.
--   Workspace     workspace.py; Decay: the body of the loop of `run_decay_cycle`; Cycle: the loop, the
--                 whole of `run_decay_cycle` and `_enforce_capacity`. The other children hold the proofs.
--   Confidence, Drift, Archive, Conflict   the modules of these names.
--   Oracle        oracle.py over the in-memory index and archive, and caretaker.py; Keys, Keeping, Forget
--                 and Gate hold the proofs.
--   Broker        `_FairRequestQueue` of agent_broker.py: `submit`, `get`, `cancel`, `close`, and the
--                 sequences of their calls. Promise: the abstract round robin that the queue is compared
--                 with, View: what it sees of a queue. The other children hold the proofs.
--   Receipts      preflight_receipt.py: bounded texts, the binding of a turn. Encoding: canonical JSON,
--                 digests and base64 texts. Issue: `issue`. Claims, Verify: `verify_and_consume` and the
--                 replay cache. The other children hold the proofs.
--   Readiness     local_readiness.py: the evidence, the state, `_readiness_failures`. Report:
--                 `build_capabilities_v1`. Parse: `parse_capabilities_v1` of protocol_compat.py.
--                 Responses: the parsers of the preflight responses there. Authority: the receipts of
--                 local_authority.py. Store, Records: the evidence store of readiness_store.py, with the
--                 checks of currency of local_authority.py. The other children hold the proofs.
--   Samples       concrete parameters, runs, and the theorems at fixed inputs.
--
-- Conventions. A call that raises returns `err` with the exception's class. A method that changes its
-- object returns the object beside the result, also when it raises, as the source leaves it then.
-- `time.time()` is an argument wherever the code reads it. A dict is an association list in insertion
-- order. Objects are values: a vine has one name in the workspace, its key, and a method that changes
-- a vine puts the changed vine under that key. The locks of the methods make each call one step; `get`
-- of the broker's queue releases its lock while it waits, and is one from the moment it stops waiting.
--
-- Parameters. Floats are a type with operations (`Float`), and what a proof needs of their order is a
-- hypothesis (`IsOrdered`); the sums and norms of NumPy (`Numpy`), zlib and the byte form of arrays
-- (`Codec`, with `IsLossless` for what they promise), the character tables of str (`Unicode`), the
-- format of a float (`Format`), the oracle's `Shield`, the reader of JSON text and a caller's scorer
-- are arguments. So are SHA-256, the Ed25519 key and its check, base64 (`Crypto`), the random bytes of a
-- receipt, the clock readings and the rounding of a time to milliseconds (`Rounding`). An object whose
-- identity counts, a job of the broker, has a number for it. The sealing of the evidence store's file
-- (`Sealing`, with `IsSealing` for what AES-GCM and JSON promise) is an argument; the keyring, the clock
-- and the installed artifact are what a call finds around it (`Surroundings`).
--
-- Fuel. The only loop on fuel prints an integer, a digit a round; its fuel is one more than the integer,
-- which is at least the number of its digits.
--
-- Not modelled: the oracle's constructor and its storage backend, SQLite persistence, agent memory, the
-- command line, the broker's worker loop and sockets, the file that holds the signing key, attestation
-- and cryptography, which are I/O or calls of other libraries in the main, or follow later; `as_vector`
-- on values that are no numbers; the parser of JSON text.
pub mod Base
pub mod Json
pub mod Layers
pub mod Vectors
pub mod Vine
pub mod Workspace
pub mod Confidence
pub mod Drift
pub mod Archive
pub mod Conflict
pub mod Oracle
pub mod Broker
pub mod Receipts
pub mod Readiness
pub mod Samples
