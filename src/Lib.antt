-- ===== src/Lib.antt =====
-- The workflow execution engine: a workflow definition is a graph of tasks; an instance of it is
-- run by submitting the outputs of its tasks one by one, and each change is recorded as an event.
--
-- The program's parts, the files that model them and what they are in the code:
--   * Errors: app/domain/exceptions.py. Code that may raise returns `Result`.
--   * Status, Status/NodeMachine, Status/WorkflowMachine: app/domain/enums.py and app/domain/state.
--   * Json: the JSON values that the engine stores. Floats are a type `F` with the operations of
--     the record `Python`.
--   * Graph and its children: app/domain/graph/workflow_graph.py, with the constructors from JSON in
--     Graph/Parse. Graph/Walk has the breadth-first
--     loop, on fuel; `rounds` gives enough of it, the length of the queue and of all adjacency
--     lists, and that is a theorem.
--   * Scheduler: app/application/executions/scheduler.py.
--   * Events, Events/State: app/domain/events and the reducer of the workflow projection in
--     app/application/events/handlers/workflow_state.py.
--   * Events/Append: app/infrastructure/db/repositories/events.py. The events that other sessions
--     commit before each of the three attempts to insert are an argument.
--   * Events/Store, Events/Rebuild: the event store, the registry, the handlers and the rebuilder
--     of app/application/events. The hash function is a field of `Hashing`.
--   * Tables and its children: the rows of one instance in app/infrastructure/db/models and the
--     repositories app/infrastructure/db/repositories/instances.py and projections.py.
--   * Definition: declared outputs, their check and their cost contributions, the ids of the
--     fields of a node, and the aggregations and outputs of a table task (Definition/Aggregation),
--     of app/domain/definitions. Python's sum, division, comparison and reading of floats are the
--     fields of `Floats`.
--   * Validation: the checks of a workflow before it is published, of app/domain/validation, with
--     the payload of app/modules/definitions/schemas/workflows.py. Validation/Topology is graph.py,
--     Validation/Wiring is input_wiring.py and Validation/Pipeline is pipeline.py. The depth-first
--     search for cycles is on fuel too, one more than the number of keys, since each call visits a
--     new key or has no neighbors.
--   * Catalog: app/infrastructure/db/repositories/definitions.py, and in Catalog/Publish the service
--     app/application/definitions/ingest.py.
--   * Executor, Executor/UserInput: app/domain/executors/base.py and user_input.py. The form-field
--     validator is an argument.
--   * Orchestrator and its children: app/application/executions/orchestrator.py, with the input
--     binder, the upstream resolver and the projection reader in Orchestrator/Inputs, the builder of
--     new instances in Orchestrator/Start and the defaults that these take over from an earlier
--     instance, app/application/executions/seed_memento.py, in Orchestrator/Seeds.
--     Orchestrator/Refused is about requests that raise before they write. The pinned versions and
--     the executors are fields of `Services`.
--
-- The methods are values of `Action`: they take the tables to a result or an exception and to the
-- tables then, so that what a failing method wrote before it raised is seen. The orchestrator
-- writes rows through the repositories and appends events to the store, which sends each event to
-- the handlers, and they write the projections. Orchestrator/Invariant is the interface between
-- these operations and what is shown of them: an invariant that the writes and the appends keep is
-- kept by every sequence of requests.
--
-- A workflow gets into the tables of definitions by way of Catalog/Publish, which calls the checks
-- of Validation; the scheduler then runs what Validation let through.
--
-- Not modelled: the read-only views of the orchestrator, the checks of a node's form before it is
-- published, the table executors and the field validators, the repositories' queries over many instances, ids and timestamps made by the database,
-- and, as input and output only, the API, the Excel export, the backups, the migrations and the
-- configuration. Orchestrator runs assume that no other session commits events of the same
-- instance meanwhile; the event store by itself is modelled with such sessions.
pub mod Prelude
pub mod Errors
pub mod Status
pub mod Json
pub mod Graph
pub mod Scheduler
pub mod Action
pub mod Events
pub mod Tables
pub mod Definition
pub mod Executor
pub mod Orchestrator
pub mod Catalog
pub mod Validation
pub mod Tests
