-- ===== src/Lib.antt =====
-- PlantLens reads the tags of an industrial machine, raises alarms, and explains them over a causal
-- graph. This library models the core of the Python service under apps/api/app.
--
-- The program and its model
--
-- A tag frame comes in and is stored under its tag unless its identity key was seen before
-- (apps/api/app/runtime/runtime_state.py: State.antt). Its quality is classed by the source's word,
-- its age, its range and its rate of change (apps/api/app/runtime/quality.py: Quality.antt). At
-- each tick the alarm engine goes through the rules and reads the stored frames and the alarms of
-- the last tick (apps/api/app/runtime/alarm_engine.py: Alarm.antt, with Condition for
-- `_evaluate_condition` and Engine for `evaluate_alarms` and `acknowledge_alarm`). The diagnosis
-- starts at an active alarm and walks the approved edges of the causal graph backwards
-- (apps/api/app/runtime/dag_runtime.py: Dag.antt, with Graph for the edges and their windows,
-- Fingerprint for `evaluate_node_fingerprint`, Walk for the loop of `diagnose_trace`, Trace for
-- what stands around it). What people do to alarms goes into a hash-chained ledger
-- (apps/api/app/services/audit_chain.py over apps/api/app/db/repositories/audit.py: Audit.antt).
-- Frame.antt and Records.antt hold the records of apps/api/app/schemas/tag_frame.py,
-- apps/api/app/schemas/common.py and apps/api/app/schemas/alarm.py.
--
-- Alarms, frames and situations give each asset a status (apps/api/app/runtime/asset_status.py:
-- Assets.antt).
--
-- The HMI classes the signals of a bench payload (apps/api/app/hmi/status.py: Hmi/Status.antt and
-- Hmi/Quality.antt) and points at the cause of their faults (apps/api/app/hmi/fault_rules.py:
-- Hmi/Faults.antt for the tests, Hmi/Faults/Candidates.antt for the candidates).
--
-- Agents propose drafts and people decide on them (apps/api/app/services/agent_queue.py: Drafts.antt;
-- apps/api/app/routers/agents.py: Drafts/Requests.antt; the guard of the approvers, of
-- apps/api/app/auth: Auth.antt). Drafts/Decided, Drafts/Life and Drafts/Unaudited hold the proofs.
--
-- A situation's card names an action to take first and those that alarms block
-- (apps/api/app/runtime/calm_card_engine.py: CalmCard.antt).
--
-- Before a causal graph is used it is compiled (apps/api/app/runtime/graph_compile.py: GraphCompile.antt,
-- for `_detect_cycle` and `validate_and_compile_graph`). Its children lead from the arcs of the edges
-- (Arcs) over the nodes not yet visited (Fresh) and the depth-first walk (Walk) to the search for a
-- cycle (Cycle), and over the lists of errors (Errors) to the verdict (Verdict).
--
-- Records that are read from files pass the gates of the ingestion before drafts are made of them
-- (apps/api/app/ingest/gates/gate2_canonical_schema.py and apps/api/app/ingest/quarantine.py:
-- Ingest.antt; apps/api/app/ingest/gates/gate3_industrial_truth.py: Ingest/Truth.antt;
-- apps/api/app/ingest/drafts/builder.py and the stages of apps/api/app/ingest/pipeline.py from the
-- second gate on: Ingest/Drafting.antt).
--
-- On the plant's side, deploy/uno-q/plantlens_app/python/passive_gateway.py listens to the bus of
-- another master: Gateway.antt models the scan of the captured bytes for Modbus frames and the
-- decoding of the frames into observations. The polling gateway's values come from registers
-- (apps/gateway/gateway/register_codec.py: Registers.antt).
--
-- apps/api/app/runtime/runtime_tick.py puts these stages together: Runtime.antt and Runtime/Stages.antt
-- model the intake of a frame (`on_tag_frame`) and the tick, which refreshes the qualities, evaluates
-- the alarms, collapses them into a situation (apps/api/app/runtime/situation_engine.py: Situation.antt
-- and Situation/Engine.antt), projects it (apps/api/app/runtime/projection.py: Projection.antt) and derives the statuses.
--
-- Definitions keep the names of the Python functions; a part of a long function has a name of its
-- own and a comment that says which part it is. A function that changes an object returns the new
-- one. Child modules hold the proofs: Alarm/Raise, Alarm/Loop, Alarm/History and Alarm/Run lead
-- from one step of the engine to its runs, which may hold ticks that raise exceptions,
-- Dag/Walk/Ends and Dag/Walk/Paths to the walk, Dag/Trace/Root and Dag/Trace/Best to the trace,
-- Audit/Chain, Audit/Append and Audit/Order to the ledger, and Gateway/Starts, Gateway/Recover and
-- Gateway/Safe to the listener. Prelude.antt passes on the shared lemmas on lists, dictionaries,
-- sorting and tests; Tests.antt runs the definitions.
--
-- How the model represents the program
--
-- A dict is an association list in the order of insertion. A float is an element of a type R with
-- the operations of Prelude/Floats.antt as an instance argument; where a theorem needs an order of
-- floats it has it as a hypothesis. An instant is a number of microseconds, and elapsed times are
-- compared exactly, where the code computes them in float milliseconds. `sorted` and `list.sort`
-- are a stable insertion sort. An exception is a constructor of the result.
--
-- The loop of `diagnose_trace` runs on fuel, one unit for each item that it takes from the
-- frontier. `walk_fuel`, one more than the number of edges, is enough: an edge is pushed at most
-- once, when the node that it leads to is visited. The scan of n captured bytes runs on fuel n and
-- takes at least one byte in each round. The depth-first search for a
-- cycle runs on fuel for its depth, as many units as there are nodes: each nested call visits one more
-- node. All other loops are structural recursions.
--
-- Not modelled: the random id of a trace, the wording of reasons, JSON, SHA-256 and pydantic (which
-- are parameters of the ledger), the database's columns and transactions, the evidence packet of a tick
-- and the formatting of its calm card, the rest of the HMI, the polling loop of the gateway, the
-- listener's thread and its HTTP routes, the ingestion in front of its second gate, the component
-- library, and the web application.
pub mod Prelude
pub mod Frame
pub mod Quality
pub mod Records
pub mod State
pub mod Alarm
pub mod Dag
pub mod Audit
pub mod Gateway
pub mod Hmi
pub mod Situation
pub mod Projection
pub mod Drafts
pub mod Auth
pub mod Registers
pub mod CalmCard
pub mod GraphCompile
pub mod Ingest
pub mod Runtime
pub mod Assets
mod Tests
