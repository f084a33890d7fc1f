-- ===== src/Versions/Examples.antt =====
-- Runs of the modelled code, and the theorems at a concrete container and a concrete lookup.
use common_build.Common.{◌≡◌, refl, List, [], ◌∷◌, any, none, some, arith}
use common_build.Common.Text.{codes, split, join, ◌==◌}
use common_build.Common.Result.{ok, err}
use common_build.Common.Decimal.{parse_digits}
use common_build.Publisher.{or_else}
use common_build.Domain.Source.{RepositorySource, create_from_string}
use common_build.Domain.Source
use common_build.Domain.DependencyRef.{DependencyRef, artifact_ref}
use common_build.Lodash.Laws.{documented}
use common_build.Domain.Version.{Version, major, from_segments, parse, parse_parts, leading_digits}
use common_build.Versions.{
  from_versions, add_all, add, change_holder, push_release, get_highest, get_highest_segments,
  highest_in,
}
use common_build.Versions.Members.{has, has-from_versions, same_segments}
use common_build.Versions.Selectors.{
  Selector, highest_minor_keep_major, highest_in_major_or_keep_major, bound, pick,
}
use common_build.Versions.Cache.{
  CacheStore, ContainerCodec, CacheEntry, Lookups, get_all_versions, invalidate, create_container,
  read_fields, from_fields, save, parse_all, texts_of, first_id,
}
use common_build.Versions.Provider.{
  Series, IsPicked, get_version, of_entry, pick_in, dependency_serie, get_version-IsPicked,
}
use common_build.Versions.Cache.Again
use common_build.Versions.Cache.Again.{to_option, answer_of, IsReadable, get_all_versions-again}

abbrev sample_versions : List Version
sample_versions =
    record { segments = 1 ∷ 2 ∷ 0 ∷ [] }
    ∷ record { segments = 2 ∷ 0 ∷ 3 ∷ [] }
    ∷ record { segments = 1 ∷ 4 ∷ 0 ∷ [] }
    ∷ []

abbrev current_version : Version
current_version = record { segments = 1 ∷ 2 ∷ 0 ∷ [] }

abbrev picked_version : Version
picked_version = record { segments = 1 ∷ 4 ∷ 0 ∷ [] }

has-from_versions_example :
    has (2 ∷ 0 ∷ 3 ∷ []) (from_versions sample_versions)
    ≡ any (λ v. same_segments v.segments (2 ∷ 0 ∷ 3 ∷ [])) sample_versions
has-from_versions_example =
    has-from_versions (2 ∷ 0 ∷ 3 ∷ []) sample_versions ((λ e. cc), ((λ e. cc), ((λ e. cc), tt)))

picked_test :
    pick documented highest_minor_keep_major (from_versions sample_versions) current_version none
    ≡ ok (some picked_version)
unfolding pick bound get_highest get_highest_segments highest_in from_versions add_all add
    change_holder push_release major from_segments
picked_test = refl

abbrev sample_dependency : DependencyRef
sample_dependency = artifact_ref (some (codes "host")) (some (codes "repo")) (some (codes "csp"))

abbrev sample_origin : RepositorySource
sample_origin = record { id = codes "gerrit"; path = codes "csp" }

abbrev sample_entry : CacheEntry
sample_entry = record {
  container = from_versions (record { segments = 1 ∷ 2 ∷ 0 ∷ [] } ∷ []);
  origin = some sample_origin;
}

abbrev sample_lookups : Lookups
sample_lookups = record {
  model = λ source. err (codes "no model");
  artifacts = λ remote repository path.
      ok ((codes "1.2.0", some (codes "gerrit/csp")) ∷ (codes "x", none) ∷ []);
  registry_tags = λ remote. ok none;
}

abbrev failing_lookups : Lookups
failing_lookups = record sample_lookups { artifacts = λ remote repository path. err (codes "404") }

-- It reads back the container of the sample alone.
abbrev sample_codec : ContainerCodec
sample_codec = record { to_json = λ m. codes "{}"; to_instance = λ t. ok sample_entry.container }

abbrev empty_store : CacheStore
empty_store = record { hashes = λ key field. none; expiry = λ key. none }

sample_entry-IsReadable : IsReadable sample_codec sample_entry
sample_entry-IsReadable = record {
  body = codes "}";
  is_object = refl;
  is_read = refl;
  storable = record {
    named = λ e. cc;
    located = λ e. cc;
    id_free = omega arith;
    path_free = omega arith;
  };
}

created_test : create_container sample_lookups sample_dependency ≡ ok (ok sample_entry)
unfolding create_container parse_all texts_of first_id or_else create_from_string Source.from_parts
    split join parse parse_parts leading_digits from_segments parse_digits
created_test = refl

get_all_versions-again_example :
    ((get_all_versions Again.documented sample_codec sample_lookups sample_dependency empty_store).0
      ≡ ok (some sample_entry))
    × (get_all_versions Again.documented sample_codec failing_lookups sample_dependency
          (get_all_versions Again.documented sample_codec sample_lookups sample_dependency
            empty_store).1
        ≡ get_all_versions Again.documented sample_codec sample_lookups sample_dependency
            empty_store)
    × ((get_all_versions Again.documented sample_codec failing_lookups sample_dependency (
          invalidate Again.documented
            (sample_dependency ∷ [])
            (get_all_versions Again.documented sample_codec sample_lookups sample_dependency
              empty_store).1)).0
        ≡ answer_of (create_container failing_lookups sample_dependency))
get_all_versions-again_example =
    get_all_versions-again Again.documented sample_codec sample_lookups failing_lookups
      sample_dependency empty_store (ok sample_entry) refl refl created_test sample_entry-IsReadable

abbrev sample_series : Series
sample_series = λ source. ok (some (codes "arm"))

abbrev arm_selector : Selector
arm_selector = highest_in_major_or_keep_major 1 (codes "arm")

provided_test :
    (get_version Again.documented sample_codec sample_lookups documented sample_series arm_selector
      sample_dependency current_version empty_store).0
    ≡ ok (some current_version)
unfolding get_version of_entry pick_in dependency_serie get_all_versions read_fields from_fields
    save create_container parse_all texts_of first_id or_else create_from_string Source.from_parts
    split join parse parse_parts leading_digits from_segments parse_digits pick bound get_highest
    get_highest_segments highest_in from_versions add_all add change_holder push_release major ◌==◌
provided_test = refl

get_version-IsPicked_example :
    IsPicked documented sample_series arm_selector current_version current_version
      (get_all_versions Again.documented sample_codec sample_lookups sample_dependency
        empty_store).0
get_version-IsPicked_example =
    get_version-IsPicked Again.documented sample_codec sample_lookups documented sample_series
      arm_selector sample_dependency current_version current_version empty_store provided_test
