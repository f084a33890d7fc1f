-- ===== src/Dependencies/Examples.antt =====
-- The theorem about the storage at a concrete state.
use common_build.Common.{refl, List, [], ◌∷◌}
use common_build.Common.Text.{Text, codes}
use common_build.Lodash.Laws as LodashLaws
use common_build.Dependencies.{AllSets, update_serialized}
use common_build.Dependencies.Laws.{documented}
use common_build.Dependencies.Update.{update_serialized-UpdateEffect, UpdateEffect}

abbrev no_sets : AllSets
no_sets = λ _. []

abbrev new_refs : List Text
new_refs = codes "ImageRef::docker::base" ∷ codes "GitRef::gerrit:lib" ∷ []

update_serialized-UpdateEffect_example :
    UpdateEffect
      (codes "gerrit:app")
      new_refs
      no_sets
      (update_serialized documented LodashLaws.documented (codes "gerrit:app") new_refs no_sets)
update_serialized-UpdateEffect_example =
    update_serialized-UpdateEffect documented LodashLaws.documented (codes "gerrit:app") new_refs
      no_sets (λ x r. refl)
