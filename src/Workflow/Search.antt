-- ===== src/Workflow/Search.antt =====
-- The searches over a workflow graph: `reachable` of
-- packages/kogg-workflow/src/node/workflow-compiler.ts, and the search from the root that `check` ends
-- with. A queue is a list, and a loop runs on fuel.
use kogg.Prelude.{
  ℕ, zero, suc, ◌+◌, String, String-Eq, Bool, true, false, Option, none, some, List, [], ◌∷◌, ◌++◌,
  ◌==◌, if◌then◌else◌, includes, length,
}
use kogg.Workflow.Maps.{get, get_or}

-- The adjacency `outgoing`.
abbrev pub Outgoing : Type 0
Outgoing = List (String × List String)

-- `outgoing.get(id) ?? []`.
abbrev pub targets : Outgoing → String → List String
targets out id = get_or [] (get id out)

-- The queue and the visited nodes.
pub record Frontier : Type 0 where
  pub queue : List String
  pub visited : List String

-- What both loops do with the node that they take off the queue.
unfoldable pub expand : Outgoing → String → List String → List String → Frontier
expand out id queue visited =
    if includes visited id
    then record { queue = queue; visited = visited }
    else record { queue = queue ++ targets out id; visited = id ∷ visited }

-- The loop of `check`: the visited nodes, or none where the fuel runs out.
unfoldable pub visit : ℕ → Outgoing → List String → List String → Option (List String)
visit n out [] visited = some visited
visit zero out (id ∷ queue) visited = none
visit (suc n) out (id ∷ queue) visited =
    let next = expand out id queue visited in visit n out next.queue next.visited

-- The loop of `reachable`.
unfoldable pub search : ℕ → Outgoing → String → List String → List String → Option Bool
search n out target [] visited = some false
search zero out target (id ∷ queue) visited = none
search (suc n) out target (id ∷ queue) visited =
    let next = expand out id queue visited in
    let rest = search n out target next.queue next.visited in
    if id == target then some true else rest

-- The edges out of nodes that are not visited.
unfoldable pub unvisited_edges : List String → Outgoing → ℕ
unvisited_edges visited [] = 0
unvisited_edges visited ((id, ts) ∷ out) =
    (if includes visited id then 0 else length ts) + unvisited_edges visited out

-- Enough for a search from one node.
unfoldable pub search_fuel : Outgoing → ℕ
search_fuel out = 1 + unvisited_edges [] out

unfoldable pub reachable : String → String → Outgoing → Bool
reachable source target out = get_or false (search (search_fuel out) out target (source ∷ []) [])
