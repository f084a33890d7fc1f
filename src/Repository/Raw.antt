-- ===== src/Repository/Raw.antt =====
-- backend/src/repositories/repository/raw-model-repository.ts: the raw data from the branches and
-- tags of a repository, and the model with its copy in Redis. The writing of models as texts and the
-- branches and tags are parameters.
pub mod Loaded
use common_build.Common.{ℕ, Bool, List, [], ◌∷◌, ◌++◌, Option, none, some, ◌≡◌}
use common_build.Common.Text.{Text, codes}
use common_build.Common.Result.{Result, ok, err}
use common_build.Lodash.{Lodash}
use common_build.Domain.Source.{RepositorySource, is_truthy}
use common_build.Domain.Refs.{ShaRef, EntityRef, entity}
use common_build.Repository.Model.{Root, RawData, StringSha, NumberSha, NumbersSha}
use common_build.Repository.Normalized.{
  NormalizedRef, normalize, patch_branch, main_branch, release_tag, major_tag,
}
use common_build.Repository.Converter.{convert_model}

-- A branch or a tag with its sha
pub record RefSha : Type 0 where
  pub ref : EntityRef
  pub sha : ShaRef

-- The variables of the loop
pub record Collected : Type 0 where
  pub main : Option StringSha
  pub release_tags : List NumbersSha
  pub patch_branches : List NumbersSha
  pub majors : List NumberSha

abbrev pub nothing_yet : Collected
nothing_yet = record { main = none; release_tags = []; patch_branches = []; majors = [] }

unfoldable pub collect_one : Option NormalizedRef → Text → Collected → Collected
collect_one none sha c = c
collect_one (some (release_tag first others)) sha c = record c {
  release_tags = c.release_tags ++ record { first = first; others = others; sha = sha } ∷ [];
}
collect_one (some (patch_branch first others)) sha c = record c {
  patch_branches = c.patch_branches ++ record { first = first; others = others; sha = sha } ∷ [];
}
collect_one (some (major_tag major)) sha c = record c {
  majors = c.majors ++ record { number = major; sha = sha } ∷ [];
}
collect_one (some (main_branch name)) sha c = record c {
  main = some (record { name = name; sha = sha });
}

-- `entities.forEach`
unfoldable pub collect_all : List RefSha → Collected → Collected
collect_all [] c = c
collect_all (e ∷ es) c = collect_all es (collect_one (normalize (entity e.ref)) e.sha.sha c)

abbrev pub with_main : Collected → Option StringSha → Result RawData
with_main c none = err (codes "Could not build repository model data. Missing main branch.")
with_main c (some main) = ok (record {
  main = main;
  release_tags = c.release_tags;
  patch_branches = c.patch_branches;
  major_tags = c.majors;
})

-- `getRawModelFromSource`, on the entities of the source
unfoldable pub get_raw_model : List RefSha → Result RawData
get_raw_model entities =
    with_main (collect_all entities nothing_yet) (collect_all entities nothing_yet).main

-- `Codec`, of another package, on models
pub record ModelCodec : Type 0 where
  pub to_json : Root → Text
  pub to_instance : Text → Result Root

-- What `getModel` gives, and the copy that is then in Redis
abbrev pub Load : Type 0
Load = Result Root × Option Text

module _ (lodash : Lodash) (codec : ModelCodec) where
  abbrev store_model : Option Text → Result RawData → Load
  store_model copy (err e) = (err e, copy)
  store_model copy (ok raw) =
      (ok (convert_model lodash raw), some (codec.to_json (convert_model lodash raw)))

  abbrev load : Result (List RefSha) → Option Text → Load
  load (err e) copy = (err e, copy)
  load (ok entities) copy = store_model copy (get_raw_model entities)

  -- `getModel`, on the copy in Redis and the answer of the source cache
  unfoldable pub get_model : Option Text → Result (List RefSha) → Load
  get_model none entities = load entities none
  get_model (some []) entities = load entities (some [])
  get_model (some (c ∷ t)) entities = (codec.to_instance (c ∷ t), some (c ∷ t))

-- `onUpdate`: the copy is deleted.
unfoldable pub on_update : Option Text → Option Text
on_update copy = none

-- `modelKey`
unfoldable pub model_key : RepositorySource → Text
model_key source = codes "repository-model:" ++ (source.id ++ (codes ":" ++ source.path))
