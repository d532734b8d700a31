-- ===== src/Lib.antt =====
-- migra-go compares two PostgreSQL schemas and plans the statements that lead from one to the
-- other. This library models its core: the schema that statements build up, the comparison, the
-- planner, the rendering, and the push of a plan.
--
-- How the parts interact: `Parser.ParseSQL` (internal/parser) dispatches statements to handlers and
-- applies their mutations to a schema. `ComputeDiff` clones and normalises two schemas first
-- (internal/model/clone.go, internal/normalize). `Differ.Diff` (internal/diff) compares two schemas (internal/model) and
-- lists operations and warnings. `ComputeDiff` (internal/app/pipeline.go) filters the namespaces
-- before and the destructive operations behind it, and hands the rest to the planner
-- (internal/plan), which assigns each to a stage and sorts each stage topologically.
-- `Renderer.RenderAll` (internal/render) writes the plan as text, and `PushService`
-- (internal/app/push) renders the planned operations and runs them in a transaction.
--
-- Files:
--   Prelude, Prelude/*: native numbers, Boolean tests, lists, and Go's maps as association lists.
--   Context: a Go context, as the answers to the questions `ctx.Err()`, asked one after the other.
--   Model/ObjectKey, Model/Objects: internal/model/*.go, its structs as records.
--   Model/Columns: the operations on a table's columns, with their two lookup tables; its children
--     are proofs.
--   Diff/Operation, Diff/Payload/*, Diff/Create/*: internal/diff/operation*.go and
--     rename_column_op.go; a payload is the struct of an operation, `new_x_op` its `NewXOp`.
--   Diff/Context: internal/diff/context.go; a method of `diffContext` is a statement on its state,
--     with a flag for an early `return`.
--   Diff/Columns, Diff/Tables/*, Diff/Objects/*, Diff/Schemas: internal/diff/diff_columns.go,
--     diff_tables.go and differ.go, function by function. Diff/Names has their loops over sorted
--     names.
--   Util: the quoting of internal/util/util.go; Util/Quoted has the proofs.
--   Diff/Render/*: `RenderString` of the operations, one child for each file; Diff/Render/Labels
--     has the names of the kinds, and its child Made a proof.
--   Render: internal/render/render.go and render_json.go; Render/Text is a proof.
--   Model/Store: internal/model/schema.go and table.go with columns as objects under addresses,
--     which a table's list and its map by name share, and the texts of their defaults as objects
--     that columns point to. Model/Clone: internal/model/clone.go on this store; its children but
--     Values are proofs.
--   Normalize, Normalize/Text: internal/normalize/normalize.go and `NormalizeDataType`.
--     Normalize/Caller has `NormalizeSchemas` and the start of `ComputeDiff`, and a proof; the
--     other children are proofs.
--   Parser/Mutation, Parser/Apply/*, Parser/Applier: the mutations of
--     internal/parser (mutation.go, index_mutation.go, rename_column_mutation.go, and those that
--     stand beside a handler) and applier.go. Parser/Parse: parser.go.
--     Parser/Sound/*, Parser/Effects, Parser/Applier/* and Parser/Parse/* are proofs.
--   Diff/Context/Keeps, Diff/Columns/Reaches, Diff/Objects/Types/Append, Diff/Unchanged/*,
--     Diff/Public/*: proofs about them.
--   Plan/Dag, Plan/Order, Plan/Stages: internal/plan/dag.go and plan.go; a node pointer is a
--     position in `nodes`. Plan/Graph says what Kahn's algorithm needs and promises; Plan/Dag/*,
--     Plan/Order/*, Plan/Stages/*, Plan/Topological and Plan/Permutation are proofs.
--   App/Pipeline: internal/app/pipeline.go; App/Pipeline/* are proofs.
--   Push/Session, Push/Answer, Push/Execute: internal/app/push/push_service.go, with all that the
--     database sees in a log. Push/Protocol is the life of a transaction as a state machine;
--     Push/Transaction/* and Push/Guard are proofs.
--   Examples/*: tests, and instances of the theorems.
--
-- Bounds: Kahn's loop (`GetExecutionOrder`) is on fuel, with one unit for each node; a node
-- enters the queue at most once, so this is enough. The loop over parentheses and the recursion
-- over array types have one unit for each character, and each round takes two characters away.
-- The prompt's loop runs over the lines that the input has left, and ends like the code at the
-- end of the input. Go's ints count nodes and operations only and do not overflow. The order of a
-- map's entries stands for the order in which `range` meets them; the theorems hold for every
-- order.
--
-- Arguments: the renderer and the test for statements that refuse a transaction are arguments of
-- the push, and the database's answers may depend on all that it has seen. `json.MarshalIndent`
-- is an argument of the rendering as JSON, the registry of handlers one of the parser, and the
-- functions of Go's strings and regexp that look at letters, white space and patterns are
-- arguments of the normalisation.
--
-- Limits: the objects that a table or a namespace has beside its columns (constraints, indexes, enum
-- types, views, sequences, extensions) are values, so what would follow from sharing one of them is
-- not expressed. The columns of a mutation are new variables of its own, as the handlers make them;
-- two mutations over one slice of columns are not expressed. Comparisons of constraints are those of
-- two that are not nil, which is what their callers have.
--
-- Not modelled: reading schemas (the handlers of internal/parser with parserutil, introspect,
-- source, indexdef), and the command line (cmd, internal/app/diff_service.go). They are I/O, or
-- built on libraries outside the repository, or left for a later extension.
pub mod Prelude
pub mod Context
pub mod Util
pub mod Model
pub mod Diff
pub mod Render
pub mod Parser
pub mod Normalize
pub mod Plan
pub mod App
pub mod Push
pub mod Examples
