-- ===== src/Repository/Examples.antt =====
-- Runs of the modelled code, and the theorems at concrete models.
use common_build.Common.{◌≡◌, refl, List, [], ◌∷◌, ◌++◌, map, All, inl, arith, none, some}
use common_build.Common.Text.{Text, codes, split, ◌==◌}
use common_build.Common.Decimal.{print, all_digits, parse_digits}
use common_build.Common.Result.{ok}
use common_build.Lodash.Laws.{documented}
use common_build.Domain.Refs.{ShaRef, tag, branch, entity, of_branch, branch_name}
use common_build.Domain.Version.{Version, negative, compare, major}
use common_build.Repository.Model.{Root, RawData, MajorContainer, top_major, top_minors}
use common_build.Repository.Normalized.{
  normalize, normalize_branch, normalize_tag, numbers_behind, behind, numbers, numbers_of,
  main_branch,
}
use common_build.Repository.Normalized.Names.{normalize-patch}
use common_build.Repository.Converter.{convert_model}
use common_build.Repository.Converter.Order.{convert_model-IsOrdered}
use common_build.Repository.Converter.Branches.{convert_model-cut, cut, with_branches}
use common_build.Repository.Ordered.{IsOrdered}
use common_build.Repository.Raw.{
  RefSha, get_raw_model, ModelCodec, get_model, collect_all, collect_one,
}
use common_build.Repository.Raw.Loaded.{
  data_of, last_main, picked, release_of, patch_of, major_of, get_raw_model-picked, get_model-again,
}
use common_build.Repository.Reader.{
  all_majors, all_versions, highest_version, next_version, minor_version, patch_version,
}
use common_build.Repository.Reader.Highest.{IsHighest, highest_version-IsHighest}
use common_build.Repository.Reader.Next.{next_version-main}
use common_build.Repository.Reader.Patches.{next_version-patch, IsLowerOrAbove}

abbrev sample_raw : RawData
sample_raw = record {
  main = record { name = codes "main"; sha = codes "m0" };
  release_tags =
      record { first = 1; others = 0 ∷ 0 ∷ []; sha = codes "r0" }
      ∷ record { first = 2; others = 1 ∷ 3 ∷ []; sha = codes "r1" }
      ∷ [];
  patch_branches = record { first = 1; others = 5 ∷ []; sha = codes "p0" } ∷ [];
  major_tags = record { number = 2; sha = codes "s0" } ∷ [];
}

convert_model-IsOrdered_example : IsOrdered (convert_model documented sample_raw)
convert_model-IsOrdered_example = convert_model-IsOrdered documented sample_raw

convert_model-cut_example :
    convert_model documented (with_branches (map cut sample_raw.patch_branches) sample_raw)
    ≡ convert_model documented sample_raw
convert_model-cut_example = convert_model-cut documented sample_raw

abbrev old_major : MajorContainer
old_major = record {
  major = 1;
  minors =
      record {
        minor = 0;
        releases =
            record { patch = 4; sha = codes "a" } ∷ record { patch = 0; sha = codes "b" } ∷ [];
        branch = none;
      }
      ∷ [];
  start = none;
  branch = some (codes "c");
}

abbrev sample_model : Root
sample_model = record {
  main = record {
    major = 2;
    main = record { name = codes "main"; sha = codes "m0" };
    minors =
        record { minor = 3; releases = record { patch = 1; sha = codes "d" } ∷ []; branch = none }
        ∷ [];
    start = some (codes "e");
  };
  majors = old_major ∷ [];
}

sample_model-IsOrdered : IsOrdered sample_model
unfolding IsOrdered all_majors top_major top_minors
sample_model-IsOrdered = (
  ((omega arith, tt), (tt, tt)),
  (((tt, tt), (((tt, tt), tt), tt)), (((tt, tt), ((((omega arith, tt), (tt, tt)), tt), tt)), tt)),
)

highest_version-IsHighest_example :
    IsHighest sample_model 1 (highest_version documented sample_model (some 1))
highest_version-IsHighest_example =
    highest_version-IsHighest documented sample_model 1 sample_model-IsOrdered

main_is_main :
    normalize (entity (of_branch (branch (codes "main")))) ≡ some (main_branch (codes "main"))
unfolding normalize normalize_branch branch_name ◌==◌
main_is_main = refl

next_version-main_example :
    (v : Version) × (next_version documented sample_model (branch (codes "main")) minor_version
      ≡ ok v)
    × All (λ w. compare w v ≡ negative) (all_versions sample_model)
next_version-main_example =
    next_version-main documented sample_model (branch (codes "main")) minor_version (codes "main")
      sample_model-IsOrdered main_is_main

next_version-patch_example :
    (v : Version) × (next_version documented sample_model
        (branch (codes "patch-" ++ print 1))
        patch_version
      ≡ ok v)
    × (major v ≡ some 1)
    × All (IsLowerOrAbove 1 v) (all_versions sample_model)
next_version-patch_example =
    next_version-patch documented sample_model (branch (codes "patch-" ++ print 1)) patch_version 1
      [] old_major sample_model-IsOrdered (inl refl) refl (normalize-patch 1)

-- Refs of a repository: the main branch, a release, a branch of no meaning, the tag of a major
abbrev at : Text → ShaRef
at sha = record { sha = sha }

abbrev sample_entities : List RefSha
sample_entities =
    record { ref = of_branch (branch (codes "main")); sha = at (codes "m0") }
    ∷ record { ref = tag (codes "v1.0.0"); sha = at (codes "r0") }
    ∷ record { ref = of_branch (branch (codes "topic")); sha = at (codes "t0") }
    ∷ record { ref = tag (codes "major-2"); sha = at (codes "s0") }
    ∷ []

abbrev sample_entities_raw : RawData
sample_entities_raw = record {
  main = record { name = codes "main"; sha = codes "m0" };
  release_tags = record { first = 1; others = 0 ∷ 0 ∷ []; sha = codes "r0" } ∷ [];
  patch_branches = [];
  major_tags = record { number = 2; sha = codes "s0" } ∷ [];
}

get_raw_model-picked_example :
    get_raw_model sample_entities
    ≡ data_of
        (last_main sample_entities)
        (picked release_of sample_entities)
        (picked patch_of sample_entities)
        (picked major_of sample_entities)
get_raw_model-picked_example = get_raw_model-picked sample_entities

-- A codec for this one model
abbrev sample_codec : ModelCodec
sample_codec = record {
  to_json = λ model. codes "model";
  to_instance = λ t. ok (convert_model documented sample_entities_raw);
}

sample_entities-read : get_raw_model sample_entities ≡ ok sample_entities_raw
unfolding get_raw_model collect_all collect_one normalize normalize_tag numbers_behind behind
    numbers numbers_of split all_digits normalize_branch ◌==◌ branch_name parse_digits
sample_entities-read = refl

get_model-again_example :
    IsOrdered (convert_model documented sample_entities_raw)
    × ((get_model documented sample_codec none (ok sample_entities)).0
        ≡ ok (convert_model documented sample_entities_raw))
    × (get_model documented sample_codec
          (get_model documented sample_codec none (ok sample_entities)).1
          (ok [])
        ≡ get_model documented sample_codec none (ok sample_entities))
get_model-again_example =
    get_model-again documented sample_codec sample_entities sample_entities_raw (ok [])
      sample_entities-read refl refl
