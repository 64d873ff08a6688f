-- ===== src/Core/Graph/Outgoing.antt =====
-- core/graph.py: what the tables of an accepted definition hold.
use agent_graph_engine.Prelude.{
  String, ◌≡◌, refl, sym, ap, ◌∙◌, Bool, true, false, Option, none, some, List, [], ◌∷◌, ◌++◌, map,
  any, All, arith, eq_iff, select, if◌then◌else◌, Bool-cases, inl, inr,
}
use mathlib.Core.List.{append-nil, append_assoc}
use agent_graph_engine.Prelude.Text.{str_eq, contains}
use agent_graph_engine.Core.Errors.{ok, ok_inj, then-eq-ok}
use agent_graph_engine.Core.NodeResult.{NodeDefinition}
use agent_graph_engine.Core.Edges.{Edge}
use agent_graph_engine.Core.Graph.{
  found, node, outgoing, GraphDefinition, Table, lookup, define, collect, add_edge, validate_edge,
  no_edges, by_id, has_edges, stops_early, stops_elsewhere,
}

abbrev pub leaves : String → Edge → Bool
leaves n e = str_eq n e.from_node

abbrev extend : List Edge → Option (List Edge) → Option (List Edge)
extend more none = none
extend more (some es) = some (es ++ more)

extend-nil : (o : Option (List Edge)) → extend [] o ≡ o
extend-nil none = refl
extend-nil (some es) = ap some (append-nil es)

extend-extend :
    (a b : List Edge) (o : Option (List Edge)) → extend b (extend a o) ≡ extend (a ++ b) o
extend-extend a b none = refl
extend-extend a b (some es) = ap some (append_assoc es a b)

lookup-add_edge :
    (n : String) (e : Edge) (m : Table (List Edge))
    → lookup n (add_edge e m) ≡ (if leaves n e then extend (e ∷ []) (lookup n m) else lookup n m)
unfolding lookup add_edge
lookup-add_edge n e [] = ground arith
lookup-add_edge n e ((k, es) ∷ m) =
    ground (arith, lookup-add_edge n e m, eq_iff k n, eq_iff k e.from_node, eq_iff n e.from_node)

extend_if :
    (b : Bool) (e : Edge) (rest : List Edge) (o : Option (List Edge))
    → extend rest (if b then extend (e ∷ []) o else o) ≡ extend (if b then e ∷ rest else rest) o
extend_if true e rest o = extend-extend (e ∷ []) rest o
extend_if false e rest o = refl

lookup-collect :
    (n : String) (ids : List String) (es : List Edge) (m : Table (List Edge))
    {m' : Table (List Edge)}
    → collect ids es m ≡ ok m'
    → lookup n m' ≡ extend (select (leaves n) es) (lookup n m)
unfolding collect
lookup-collect n ids [] m {m' = m'} h =
    ap (lookup n) (sym (ok_inj h)) ∙ sym (extend-nil (lookup n m))
lookup-collect n ids (e ∷ es) m h =
    let (_, rest) = then-eq-ok (validate_edge e ids) (collect ids es (add_edge e m)) h in
    lookup-collect n ids es (add_edge e m) rest
    ∙ ap (extend (select (leaves n) es)) (lookup-add_edge n e m)
    ∙ extend_if (leaves n e) e (select (leaves n) es) (lookup n m)

lookup-no_edges :
    (n : String) (ids : List String)
    → lookup n (map no_edges ids) ≡ (if contains ids n then some [] else none)
unfolding lookup
lookup-no_edges n [] = refl
lookup-no_edges n (k ∷ ids) = ground (arith, lookup-no_edges n ids)

abbrev pub node_ids : List NodeDefinition → List String
node_ids = map (λ (n : NodeDefinition). n.id)

abbrev pub IsKnown : List String → Edge → Type 0
IsKnown ids e = (contains ids e.from_node ≡ true) × (contains ids e.to_node ≡ true)

validate-IsKnown : (e : Edge) (ids : List String) → validate_edge e ids ≡ ok tt → IsKnown ids e
unfolding validate_edge
validate-IsKnown e ids h = ground arith

collect-IsKnown :
    (ids : List String) (es : List Edge) (m : Table (List Edge)) {m' : Table (List Edge)}
    → collect ids es m ≡ ok m'
    → All (IsKnown ids) es
unfolding collect
collect-IsKnown ids [] m h = tt
collect-IsKnown ids (e ∷ es) m h =
    let (valid, rest) = then-eq-ok (validate_edge e ids) (collect ids es (add_edge e m)) h in
    (validate-IsKnown e ids valid, collect-IsKnown ids es (add_edge e m) rest)

-- What the checks of a definition establish.
pub record IsAccepted (nodes : List NodeDefinition) (edges : List Edge) (g : GraphDefinition)
    : Type 0 where
  pub by_ids : g.nodes_by_id ≡ map by_id nodes
  pub collected :
      collect (node_ids nodes) edges (map no_edges (node_ids nodes)) ≡ ok g.outgoing_by_id
  pub all_edges : g.edges ≡ edges
  pub end_closed : has_edges (lookup "END" g.outgoing_by_id) ≡ false
  pub end_terminal : any stops_early edges ≡ false
  pub terminal_ends : any stops_elsewhere edges ≡ false

pub define-IsAccepted :
    (nodes : List NodeDefinition) (edges : List Edge) {g : GraphDefinition}
    → define nodes edges ≡ ok g
    → IsAccepted nodes edges g
unfolding define
define-IsAccepted nodes edges h = ground arith

lookup-by_id :
    (n : String) (nodes : List NodeDefinition)
    → contains (node_ids nodes) n ≡ true
    → (d : NodeDefinition) × (lookup n (map by_id nodes) ≡ some d)
unfolding lookup
lookup-by_id n [] h = absurd (ground arith)
lookup-by_id n (d ∷ nodes) h = elim (Bool-cases (str_eq d.id n)) [
  | inl here ↦ (d, ground arith)
  | inr there ↦ let (x, found') = lookup-by_id n nodes (ground arith) in (x, ground arith)
]

module _ (nodes : List NodeDefinition) (edges : List Edge) {g : GraphDefinition}
    (built : define nodes edges ≡ ok g) where
  accepted : IsAccepted nodes edges g
  accepted = define-IsAccepted nodes edges built

  -- In a graph that passed the checks of its construction, the outgoing edges of a declared node
  -- are exactly the edges that start at it, in the order of their declaration.
  pub outgoing_exact :
      (n : String)
      → contains (node_ids nodes) n ≡ true
      → outgoing g n ≡ ok (select (leaves n) edges)
  unfolding outgoing
  outgoing_exact n h =
      let empty = lookup-no_edges n (node_ids nodes) in
      let all' =
        lookup-collect n (node_ids nodes) edges (map no_edges (node_ids nodes))
          accepted.collected in
      ap found (
        all'
        ∙ ap (extend (select (leaves n) edges)) (empty ∙ ap (λ b. if b then some [] else none) h))

  pub node_declared :
      (n : String) → contains (node_ids nodes) n ≡ true → (d : NodeDefinition) × (node g n ≡ ok d)
  unfolding node
  node_declared n h =
      let (d, e) = lookup-by_id n nodes h in (d, ap found (ap (lookup n) accepted.by_ids ∙ e))

  pub edges-IsKnown : All (IsKnown (node_ids nodes)) edges
  edges-IsKnown = collect-IsKnown (node_ids nodes) edges _ accepted.collected
