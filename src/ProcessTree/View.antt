-- ===== src/ProcessTree/View.antt =====
-- What the component of web/src/ProcessTree.tsx shows. A click on a node focuses its event; the
-- reset button focuses the event that the tree was opened for.
use sentinel_edr.Common.{
  ℕ, suc, String, Bool, false, not, Option, none, some, List, [], ◌∷◌, ◌++◌, length, if◌then◌else◌,
  get_or, ltb, ◌===◌, nat_same, string_same,
}
use sentinel_edr.Common.Text.{Text, codes, split}
use sentinel_edr.Model.{Event, Process}
use sentinel_edr.ProcessTree.{pid_of, by_pid, ancestry, children, has_graph, is_pid}

pub record Node : Type 0 where
  pub focal : Bool
  pub depth : ℕ
  pub title : Text
  pub has_branch : Bool
  pub name : Text
  pub pid : Option ℕ
  pub user : Option String
  pub cmdline : Option String

-- `a || b`, and a text that is shown where it is not empty
abbrev first_text : Option String → Text → Text
first_text none other = other
first_text (some s) other = if s === "" then other else codes s

abbrev if_text : Option String → Option String
if_text none = none
if_text (some s) = if s === "" then none else some s

abbrev last_part : List Text → Text
last_part [] = []
last_part (p ∷ []) = p
last_part (p ∷ q ∷ ps) = last_part (q ∷ ps)

-- `p.exe?.split("/").pop() || "?"`
abbrev or_question : Text → Text
or_question [] = codes "?"
or_question (c ∷ t) = c ∷ t

abbrev exe_name : Option String → Text
exe_name none = codes "?"
exe_name (some exe) = or_question (last_part (split b'/' (codes exe)))

abbrev pub proc_node : Process → ℕ → Bool → Node
proc_node p depth focal = record {
  focal = focal;
  depth = depth;
  title = first_text p.cmdline (first_text p.exe []);
  has_branch = ltb 0 depth;
  name = first_text p.name (exe_name p.exe);
  pid = p.pid;
  user = if_text p.user;
  cmdline = if_text p.cmdline;
}

-- Every event of the maps has a process.
abbrev node_of : Option Process → ℕ → Bool → List Node
node_of none depth focal = []
node_of (some p) depth focal = proc_node p depth focal ∷ []

abbrev pub chain_nodes : Option ℕ → ℕ → List Event → List Node
chain_nodes focal depth [] = []
chain_nodes none depth (e ∷ es) = node_of e.process depth false ++ chain_nodes none (suc depth) es
chain_nodes (some f) depth (e ∷ es) =
    node_of e.process depth (is_pid (pid_of e) f) ++ chain_nodes (some f) (suc depth) es

abbrev pub child_nodes : ℕ → List Event → List Node
child_nodes depth [] = []
child_nodes depth (e ∷ es) = node_of e.process depth false ++ child_nodes depth es

pub data Body : Type 0 where
  graph : List Node → ℕ → Body
  lineage : String → Body
  single : Body

pub record Tree : Type 0 where
  pub has_reset : Bool
  pub body : Body

abbrev lineage_of : Option Process → Option String
lineage_of none = none
lineage_of (some p) = if_text p.lineage

abbrev without_graph : Option String → Body
without_graph none = Body.single
without_graph (some l) = Body.lineage l

abbrev body_of : Event → Option ℕ → ℕ → List Event → List Event → Body
body_of focus focal window chain below =
    if has_graph chain below
    then Body.graph (chain_nodes focal 0 chain ++ child_nodes (length chain) below) window
    else without_graph (lineage_of focus.process)

abbrev other_pid : Option ℕ → ℕ → Bool
other_pid p q = not (is_pid p q)

-- Nothing is shown for a focus without a process id.
abbrev tree_at : Option ℕ → Event → Event → List Event → Option Tree
tree_at none event focus events = none
tree_at (some p) event focus events = some (record {
  has_reset = other_pid (pid_of event) p;
  body =
      body_of focus (some p) (length (by_pid events event focus))
        (get_or (ancestry (by_pid events event focus) (some p)) [])
        (children (by_pid events event focus) (some p));
})

unfoldable pub process_tree : Event → Event → List Event → Option Tree
process_tree event focus events = tree_at (pid_of focus) event focus events
