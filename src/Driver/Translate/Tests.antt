-- ===== src/Driver/Translate/Tests.antt =====
-- Process 0 sends its object 4096, node 7, to process 1; and reference 11, its own handle 1.
use headless_testing.Base.{ℕ, ◌≡◌, refl, none, some, true, if◌then◌else◌, ◌==◌}
use headless_testing.Kernel.{Run, ok, bug, Always}
use headless_testing.RbTree.{leaf, node, search_tree, link}
use headless_testing.RbTree.Plain.{plain}
use headless_testing.Driver.State.{Binder, BinderNode}
use headless_testing.Driver.Node.{binder_inc_node, binder_inc_node_tmpref}
use headless_testing.Driver.Ref.{choose_desc}
use headless_testing.Driver.Tests.{driver, a_proc, lone}
use headless_testing.Driver.Translate.{
  FlatObject, flat_binder, flat_weak_handle, TransferKernel, Translation, binder_translate_binder,
  binder_translate_handle,
}
use headless_testing.Driver.Translate.Faithful.{
  OfObject, IsNodeOf, IsNodeBehind, Hides, Carries, binder_translate_binder-Hides,
  binder_translate_handle-Carries,
}

abbrev offered : BinderNode
offered = record lone { proc = some 0; has_weak_ref = true; has_strong_ref = true }

abbrev offering : Binder
offering = record driver {
  nodes = λ n. if n == 7 then some offered else none;
  procs = λ p.
      if p == 0
      then record a_proc { nodes = node leaf 7 leaf }
      else record a_proc { refs_by_desc = leaf };
}

abbrev enough : TransferKernel
enough = record { kzalloc_node = some 8; kzalloc_ref = some 20; may_transfer = true }

abbrev an_object : FlatObject
an_object = record { hdr_type = flat_binder; flags = 0; value = 4096; cookie = 0 }

abbrev a_handle : FlatObject
a_handle = record { hdr_type = flat_weak_handle; flags = 0; value = 1; cookie = 0 }

binder_translate_binder-Hides_example :
    Always
      (OfObject (Hides plain enough 1 an_object (IsNodeOf plain offering enough an_object 0)))
      (binder_translate_binder plain offering enough an_object 1 1)
binder_translate_binder-Hides_example =
    binder_translate_binder-Hides plain offering enough an_object 1 1

binder_translate_handle-Carries_example :
    Always
      (OfObject (Carries plain enough 0 a_handle (IsNodeBehind offering a_handle 0)))
      (binder_translate_handle plain offering enough a_handle 0 1)
binder_translate_handle-Carries_example =
    binder_translate_handle-Carries plain offering enough a_handle 0 1

abbrev new_value : Run Translation → ℕ
new_value bug = 0
new_value (ok (b, fp, none)) = fp.value
new_value (ok (b, fp, some e)) = 0

-- The handle becomes the owner's pointer, and the object the first free handle.
home_again : new_value (binder_translate_handle plain offering enough a_handle 0 1) ≡ 4096
unfolding binder_translate_handle search_tree binder_inc_node_tmpref
home_again = refl

first_handle : new_value (binder_translate_binder plain offering enough an_object 1 1) ≡ 1
unfolding binder_translate_binder search_tree link binder_inc_node choose_desc
first_handle = refl
