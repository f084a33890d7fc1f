-- ===== src/Repository/Converter/Branches.antt =====
-- What becomes of the branches of the raw data.
use common_build.Common.{◌≡◌, refl, ap, List, [], ◌∷◌, map}
use common_build.Lodash.{Lodash}
use common_build.Repository.Model.{RawData, NumbersSha}
use common_build.Repository.Converter.{
  Builders, values, update, new_major, add_patch_branches, patch_branch_change, add_major_tags,
  add_release_tags, builders_of, root_of, convert_model,
}

-- A patch branch without the segments after its major.
abbrev pub cut : NumbersSha → NumbersSha
cut p = record { first = p.first; others = []; sha = p.sha }

abbrev pub with_branches : List NumbersSha → RawData → RawData
with_branches ps raw = record {
  main = raw.main;
  release_tags = raw.release_tags;
  patch_branches = ps;
  major_tags = raw.major_tags;
}

add_patch_branches-cut :
    (ps : List NumbersSha) (bs : Builders)
    → add_patch_branches (map cut ps) bs ≡ add_patch_branches ps bs
unfolding add_patch_branches patch_branch_change
add_patch_branches-cut [] bs = refl
add_patch_branches-cut (p ∷ ps) bs =
    add_patch_branches-cut ps (update new_major (patch_branch_change p) p.first bs)

-- The model that `convertModel` builds does not depend on the segments of a patch branch after the
-- first: a branch of a minor counts as a branch of its major.
pub convert_model-cut :
    (lodash : Lodash) (raw : RawData)
    → convert_model lodash (with_branches (map cut raw.patch_branches) raw)
      ≡ convert_model lodash raw
unfolding convert_model builders_of
convert_model-cut lodash raw =
    ap (λ bs. root_of lodash raw.main bs (lodash.max_by _ (values bs) (λ b. b.major)))
      (ap (add_release_tags raw.release_tags)
        (add_patch_branches-cut raw.patch_branches (add_major_tags raw.major_tags [])))
