-- ===== src/Graph/Trace.antt =====
-- Trace of graph.go: breadth-first from a record, along the links or against them.
pub mod Step
pub mod Places
pub mod Invariant
pub mod Next
pub mod Correct
mod Samples
use rootline.Base.{
  ℕ, zero, suc, ◌+◌, String, Option, none, some, List, [], ◌∷◌, ◌++◌, Bool, true, false, not, ◌&&◌,
  ◌||◌, ◌==◌, ltb, leb, if◌then◌else◌, length,
}
use rootline.Base.Dict.{Dict, lookup, insert, has, keys}
use rootline.Extract.{Record}
use rootline.Graph.{Edge, Graph}
use rootline.Graph.Adjacency.{contains, edges_of}

-- TraceOptions: no limit where `max_depth` is 0, which also stands for a negative MaxDepth, and every
-- type where `edge_type` is empty.
pub record TraceOptions : Type 0 where
  pub reverse : Bool
  pub max_depth : ℕ
  pub edge_type : String

-- TraceNode, and queueItem, which has the same fields.
pub record TraceNode : Type 0 where
  pub path : String
  pub depth : ℕ
  pub via : String
  pub from : String

-- A missing entry of a map of lists is the empty list.
entry_of : Option (List Edge) → List Edge
entry_of none = []
entry_of (some es) = es

-- The edges of one source, turned round: those whose target is in the graph.
reverse_source : Dict Record → String → List Edge → Dict (List Edge) → Dict (List Edge)
unfolding entry_of
reverse_source nodes src [] acc = acc
reverse_source nodes src (e ∷ es) acc =
    let turned = record e { source = e.target; target = src; resolution = ""; markdown = false } in
    reverse_source nodes src es (
      if has e.target nodes
      then insert e.target (entry_of (lookup e.target acc) ++ turned ∷ []) acc
      else acc)

-- reverseEdges
reverse_edges : Dict Record → Dict (List Edge) → Dict (List Edge) → Dict (List Edge)
unfolding reverse_source
reverse_edges nodes [] acc = acc
reverse_edges nodes ((src, es) ∷ rest) acc =
    reverse_edges nodes rest (reverse_source nodes src es acc)

-- The edges that leave a node in the direction of the trace.
pub trace_edges : Graph → TraceOptions → String → List Edge
unfolding reverse_edges edges_of
trace_edges g o =
    if o.reverse
    then edges_of (record { nodes = g.nodes; edges = reverse_edges g.nodes g.edges [] })
    else edges_of g

-- The three tests that pass over an edge: a broken link, another type, a visited target.
pub skips : Graph → TraceOptions → List String → Edge → Bool
skips g o visited e =
    if not (has e.target g.nodes)
    then true
    else if not (o.edge_type == "") && not (e.kind == o.edge_type)
    then true
    else contains visited e.target

pub record Frontier : Type 0 where
  pub visited : List String
  pub queue : List TraceNode

-- The loop over the edges of the item that left the queue.
pub enqueue : Graph → TraceOptions → TraceNode → List Edge → Frontier → Frontier
enqueue g o item [] s = s
enqueue g o item (e ∷ es) s = enqueue g o item es (
    if skips g o s.visited e then s else record {
      visited = e.target ∷ s.visited;
      queue =
          s.queue
          ++ record { path = e.target; depth = item.depth + 1; via = e.kind; from = item.path }
            ∷ [];
    })

-- opts.MaxDepth > 0 && item.depth >= opts.MaxDepth
pub at_limit : TraceOptions → ℕ → Bool
at_limit o depth = ltb 0 o.max_depth && leb o.max_depth depth

pub expand : Graph → TraceOptions → TraceNode → Frontier → Frontier
expand g o item s =
    if at_limit o item.depth then s else enqueue g o item (trace_edges g o item.path) s

-- for len(queue) > 0 { … }. `none` means that the fuel ran out.
pub trace_loop : ℕ → Graph → TraceOptions → Frontier → List TraceNode → Option (List TraceNode)
trace_loop zero g o s out = elim s.queue [ [] ↦ some out | _ ∷ _ ↦ none ]
trace_loop (suc f) g o s out = elim s.queue [
  | [] ↦ some out
  | item ∷ rest ↦
      trace_loop f g o (expand g o item (record s { queue = rest }))
        (if ltb 0 item.depth then out ++ item ∷ [] else out)
]

abbrev pub start_node : String → TraceNode
start_node start = record { path = start; depth = 0; via = ""; from = "" }

-- Trace: the nodes of the result.
pub trace : Graph → String → TraceOptions → Option (List TraceNode)
trace g start o =
    if has start g.nodes
    then trace_loop (length (keys g.nodes)) g o
        (record { visited = start ∷ []; queue = start_node start ∷ [] }) []
    else some []
