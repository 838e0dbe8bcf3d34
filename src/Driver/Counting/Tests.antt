-- ===== src/Driver/Counting/Tests.antt =====
-- The owner of node 7 is told of its first reference.
use headless_testing.Base.{refl, none, some, true, if◌then◌else◌, ◌==◌}
use headless_testing.Kernel.{Always}
use headless_testing.RbTree.Plain.{plain}
use headless_testing.Driver.State.{Binder, BinderNode}
use headless_testing.Driver.Tests.{driver, lone}
use headless_testing.Driver.Counting.{read_node}
use headless_testing.Driver.Counting.Told.{TracksIf, read_node-Tracks}

abbrev served : BinderNode
served = record lone { proc = some 0 }

abbrev serving : Binder
serving = record driver { nodes = λ n. if n == 7 then some served else none }

read_node-Tracks_example : Always (TracksIf served 7) (read_node plain (λ r. true) serving 0 7)
read_node-Tracks_example = read_node-Tracks plain (λ r. true) serving 0 7 served refl
