-- ===== src/Lib.antt =====
-- Rootline: a command-line program that reads a tree of Markdown records, takes the rules for each
-- directory from its chain of .stem files, validates the records against them, and answers
-- questions about the graph of links between the records.
--
-- The model follows one path through the program. An extractor gives a `Record` (internal/extract,
-- Extract.antt), whose values are Go's `any` as the YAML decoder fills it (Value.antt;
-- Value/Print.antt is fmt's %v). The .stem files of a directory chain are merged into one
-- (internal/rules/merge.go, Rules/Merge.antt; the types of rules.go are in Rules.antt), and a
-- child's field is compared with its parent's (internal/rules/field_compatibility.go,
-- Rules/Compatibility.antt). The fields that apply to a record are chosen by its path
-- (internal/rules/match.go, Rules/Match.antt). What a declaration and a value must be is the type
-- contract (internal/rules/type_contract.go and sequence_config.go, Rules/Contract.antt, with
-- Extract/Wikilink.antt for the link syntax); the findings make up the result of a file and the
-- envelope of a run (internal/rules/result.go, Rules/Report.antt), and a parent's record is
-- compared with its children's (internal/rules/drift.go, Rules/Drift.antt). The structural rules of
-- a directory are in Rules/Structure.antt (internal/rules/structural.go), over what the file system
-- answers. The links of the records form the graph of internal/graph/graph.go (Graph.antt), whose
-- cycles are detected (DetectCycles: Graph/Cycles.antt), whose broken links are listed
-- (BrokenLinks: Graph/Edges.antt), and which is traversed from a record (Trace: Graph/Trace.antt).
-- A query filters the records (internal/query/query.go and shortcuts.go, Query.antt), or by their
-- links (traversal.go, Query/Traversal.antt). What is inferred from a corpus and not yet said by
-- the stems that govern it is picked out by internal/infer/delta.go, over the groups of scopes.go
-- (Infer.antt).
--
-- Two parts stand beside that path. Files are replaced atomically by internal/fsx (atomic.go,
-- Fsx/Atomic.antt; atomic_target.go, Fsx/Target.antt) over what it asks of the operating system
-- (Fsx.antt). The skill of the program is installed by internal/skilldist: its types (model.go,
-- Skilldist.antt), the plans (plan.go, Skilldist/Planning.antt), the validation of a receipt and
-- the file of receipts (store.go, Skilldist/Receipts.antt and Skilldist/Journal.antt). Paths are
-- those of path/filepath (Base/FilePath.antt). The sources that name a part of a record's body
-- (internal/extract/body_source.go) are parsed and printed in Extract/Section.antt, and their value
-- found in Extract/Resolve.antt.
--
-- Correspondence. A function of the program has its name in snake case (mergeSchemaFields is
-- merge_schema_fields, DetectCycles is detect_cycles); a comment names the Go function wherever the
-- name differs. A Go map with string keys is an association list (Base/Dict.antt); `IsDict` says
-- that no key stands twice, as in a Go map. Where the program ranges over a map, the model goes
-- through the list. Go's int is `ℤ` of Base/Int.antt where it may be negative or is compared with
-- zero, and a natural number where it counts. Text is compared by bytes, as Go compares strings
-- (Base/Text.antt); sort.Strings and sort.Slice are a stable insertion sort (Base/Sort.antt).
--
-- State. DetectCycles keeps `Search`: the colors, the parents and the cycles found; Trace keeps
-- `Frontier`: the visited set and the queue. An atomic write passes a `World` along: the table of
-- files, the tables that there were, and the open descriptors. `Faults` says which calls fail, and
-- is arbitrary in the theorems except where they say so. A file has the content that is read and
-- the part of it that was flushed. The file of receipts is its text; `Disk` says which of the calls
-- that read and write it fail. The scanner reads lines below 1 MiB (1048576 bytes in UTF-8).
--
-- Fuel. `none` means that the fuel ran out. The depth-first search gets as much fuel as the graph
-- has nodes: each call colours a white node. The climb along the parents gets one more: the parents
-- from a node to a gray one are the distinct nodes of the current path. Trace gets one step for
-- each node: a node joins the queue once.
--
-- Not modelled: reading files, YAML and Markdown parsing (go-yaml, goldmark), the expression
-- language of derive and aggregate (expr-lang), the commands of cmd/rootline, the text of messages,
-- and the parts internal/derive, fix, gitenv, index, migrate, proposal, stemyaml and templates; of
-- internal/skilldist the execution of plans, the backups and the resolution of the source; that a
-- rename survives a crash; of internal/rules the discovery of .stem files, the resolution of links,
-- Validate and the reports on .stem files; of internal/graph the construction of a graph from
-- records and CycleMembers; of internal/query sorting; of internal/infer the detectors,
-- DefaultStemResolver and what is done with the inferences. The package fuzzy is a parameter of
-- Graph/Edges.antt, and the compiler and the evaluator of expressions are parameters of
-- Query/Traversal.antt.
pub mod Base
pub mod Extract
pub mod Fsx
pub mod Graph
pub mod Infer
pub mod Query
pub mod Rules
pub mod Skilldist
pub mod Value
