-- ===== src/Pipeline/Examples.antt =====
-- The lookups of a pipeline with two actions, one of which has an alias.
use p4runtime_go_controller.Common.{◌≡◌, refl, List, [], ◌∷◌, some}
use p4runtime_go_controller.Common.Text.{codes, same_text}
use p4runtime_go_controller.Pipeline.{
  ActionDef, P4Info, empty_info, index, index_names, index_ids, get, action, all_tables,
  found_tables,
}
use p4runtime_go_controller.Pipeline.Lookup.{
  FindsByName, FindsById, index-FindsByName, index-FindsById,
}

abbrev drop_packet : ActionDef
drop_packet = record { id = 1; name = codes "ingress.drop"; alias = codes "drop"; params = [] }

abbrev forward : ActionDef
forward = record { id = 2; name = codes "ingress.forward"; alias = []; params = [] }

abbrev actions : List ActionDef
actions = drop_packet ∷ forward ∷ []

abbrev info : P4Info
info = record empty_info { actions = actions }

finds_alias : action (index info) (codes "drop") ≡ some drop_packet
unfolding action index index_names get same_text
finds_alias = refl

lists_no_tables : all_tables (index info) ≡ []
unfolding all_tables index found_tables index_ids
lists_no_tables = refl

index-FindsByName_example : FindsByName info (codes "drop") (index info)
index-FindsByName_example = index-FindsByName info (codes "drop")

index-FindsById_example : FindsById info 2 (index info)
index-FindsById_example = index-FindsById info 2
