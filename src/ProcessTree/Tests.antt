-- ===== src/ProcessTree/Tests.antt =====
-- A tree with a cycle among its links, and the theorem at it.
use sentinel_edr.Common.{ℕ, ◌≡◌, refl, false, true, none, some, List, [], ◌∷◌}
use sentinel_edr.Model.{Event, Severity}
use sentinel_edr.ProcessTree.{by_pid, ancestry, children, has_graph}
use sentinel_edr.Common.Text.{codes}
use sentinel_edr.ProcessTree.View.{process_tree, Body}
use sentinel_edr.ProcessTree.Ancestry.{Found}
use sentinel_edr.ProcessTree.Window.{tree-Found}

abbrev event : ℕ → ℕ → Event
event pid ppid = record {
  id = "e";
  agent_id = "a";
  hostname = "h";
  ts = "t";
  category = "process";
  action = "exec";
  severity = Severity.low;
  user = none;
  message = none;
  process = some (record {
    pid = some pid;
    ppid = some ppid;
    name = none;
    exe = none;
    cmdline = none;
    user = none;
    parent = none;
    lineage = none;
    container = none;
    hash = none;
  });
  file = none;
  network = none;
  usb = none;
  auth = none;
  dlp = none;
  labels = [];
}

-- 3 has parent 2, 2 has parent 1, and 1 claims the parent 3.
abbrev stream : List Event
stream = event 1 3 ∷ event 2 1 ∷ event 4 3 ∷ []

abbrev focus : Event
focus = event 3 2

-- The tree shows the two ancestors, the focus and its other child, and no reset button.
shown :
    process_tree focus focus stream
    ≡ some (record {
      has_reset = false;
      body =
          Body.graph
            (record {
              focal = false;
              depth = 0;
              title = [];
              has_branch = false;
              name = codes "?";
              pid = some 1;
              user = none;
              cmdline = none;
            }
              ∷ record {
                focal = false;
                depth = 1;
                title = [];
                has_branch = true;
                name = codes "?";
                pid = some 2;
                user = none;
                cmdline = none;
              }
              ∷ record {
                focal = true;
                depth = 2;
                title = [];
                has_branch = true;
                name = codes "?";
                pid = some 3;
                user = none;
                cmdline = none;
              }
              ∷ record {
                focal = false;
                depth = 3;
                title = [];
                has_branch = true;
                name = codes "?";
                pid = some 1;
                user = none;
                cmdline = none;
              }
              ∷ record {
                focal = false;
                depth = 3;
                title = [];
                has_branch = true;
                name = codes "?";
                pid = some 4;
                user = none;
                cmdline = none;
              }
              ∷ [])
            4;
    })
unfolding process_tree ancestry by_pid children has_graph
shown = refl

cycle_tree :
    (ancestry (by_pid stream focus focus) (some 3) ≡ some (event 1 3 ∷ event 2 1 ∷ focus ∷ []))
    × (children (by_pid stream focus focus) (some 3) ≡ event 1 3 ∷ event 4 3 ∷ [])
unfolding ancestry by_pid children
cycle_tree = (refl, refl)

tree-Found_example :
    (c : List Event) × (ancestry (by_pid stream focus focus) (some 3) ≡ some c)
    × Found (by_pid stream focus focus) (focus ∷ []) c
tree-Found_example = tree-Found stream focus focus 3 refl
