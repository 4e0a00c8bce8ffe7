-- ===== src/Workflow/Cycle.antt =====
-- `cycle` of packages/kogg-workflow/src/node/workflow-compiler.ts, which takes nodes off that no edge
-- from a node that is left leads to. A queue is a list, and the loop runs on fuel.
use kogg.Prelude.{
  ℕ, zero, suc, ◌+◌, ◌-◌, String, String-Eq, ℕ-Eq, Bool, not, Option, none, some, List, [], ◌∷◌,
  ◌++◌, ◌==◌, if◌then◌else◌, length,
}
use kogg.Workflow.Graph.{EditableWorkflowNode, EditableWorkflowEdge, EditableWorkflowGraph}
use kogg.Workflow.Maps.{get, set, get_or}
use kogg.Workflow.Search.{Outgoing, targets}

-- `map.get(source)?.push(target)`.
abbrev pub push_at : String → Option (List String) → String → Outgoing → Outgoing
push_at source none target out = out
push_at source (some ts) target out = set source (ts ++ target ∷ []) out

unfoldable pub link : String → String → Outgoing → Outgoing
link source target out = push_at source (get source out) target out

abbrev pub Degrees : Type 0
Degrees = List (String × ℕ)

-- `map.get(id) ?? 0`.
abbrev pub degree_of : Degrees → String → ℕ
degree_of degree id = get_or 0 (get id degree)

unfoldable pub increment : String → Degrees → Degrees
increment id degree = set id (degree_of degree id + 1) degree

-- The inner loop of `cycle`. A degree of zero would go below zero in the source and stays zero here;
-- in both cases no later step finds it to be one.
unfoldable pub release : List String → Degrees → List String → Degrees × List String
release [] degree queue = (degree, queue)
release (target ∷ ts) degree queue =
    let value = degree_of degree target in
    release ts (set target (value - 1) degree) (if value == 1 then queue ++ target ∷ [] else queue)

-- The loop of `cycle`: how many nodes it takes off the queue, or none where the fuel runs out.
unfoldable pub peel : ℕ → Outgoing → Degrees → List String → ℕ → Option ℕ
peel n edges degree [] count = some count
peel zero edges degree (id ∷ queue) count = none
peel (suc n) edges degree (id ∷ queue) count =
    let (rest, waiting) = release (targets edges id) degree queue in
    peel n edges rest waiting (count + 1)

-- The nodes that no edge leads to.
unfoldable pub sources : Degrees → List String
sources [] = []
sources ((id, value) ∷ degree) = if value == 0 then id ∷ sources degree else sources degree

unfoldable pub total : Degrees → ℕ
total [] = 0
total ((id, value) ∷ degree) = value + total degree

unfoldable pub count_edges : List EditableWorkflowEdge → Degrees → Outgoing → Degrees × Outgoing
count_edges [] degree edges = (degree, edges)
count_edges (e ∷ es) degree edges =
    count_edges es (increment e.target_node_id degree)
      (link e.source_node_id e.target_node_id edges)

-- `new Map(graph.nodes.map(node => [node.nodeId, value]))`.
unfoldable pub each_node {ℓ} :
    {A : Type ℓ} → A → List EditableWorkflowNode → List (String × A) → List (String × A)
each_node a [] m = m
each_node a (n ∷ ns) m = each_node a ns (set n.node_id a m)

-- `cycle`: a graph whose nodes are not all taken off the queue.
unfoldable pub cycle : EditableWorkflowGraph → Bool
cycle graph =
    let (degree, edges) =
      count_edges graph.edges (each_node 0 graph.nodes []) (each_node [] graph.nodes []) in
    let queue = sources degree in
    let count = get_or 0 (peel (length queue + total degree) edges degree queue 0) in
    not (count == length graph.nodes)
