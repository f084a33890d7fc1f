-- ===== src/Majors/Application/Created.antt =====
-- When a major is created by a tag, and what the tag means.
use common_build.Common.{
  ◌≡◌, refl, ap, inl, inr, ℕ, ◌<◌, Bool, ◌||◌, List, [], ◌∷◌, Option, none, some, Bool-cases, ltb,
  ltb→lt,
}
use common_build.Common.Text.{Text, ◌==◌}
use common_build.Common.Result.{Result, ok, err, Result-cases}
use common_build.Common.Promises.{Promise, recover, pure}
use common_build.Domain.Source.{RepositorySource}
use common_build.Domain.Refs.{ShaRef, create_sha, entity, tag}
use common_build.Majors.{Value}
use common_build.Repository.Model.{Root}
use common_build.Repository.Normalized.{
  normalize, normalize_tag, numbers_behind, behind, as_major, major_tag,
}
use common_build.Repository.Normalized.Names.{numbers-print}
use common_build.BuildSystem.Actions.{RepositoryConfig, MajorSerie}
use common_build.Majors.Application.{
  ApplyAction, exists, created, manual, not_subscribed, failed, TagCall, Services, major_name,
  create_major_tag, apply_to, process_serie, subscribed, configured, process_source,
}

-- The tag `major-<n>` is read as the tag of that major.
normalize-major : (n : ℕ) → normalize (entity (tag (major_name n))) ≡ some (major_tag n)
unfolding normalize normalize_tag numbers_behind behind
normalize-major n = ap as_major (numbers-print n)

-- What holds when the action is that the major was created
pub record CreatedEffect (services : Services) (source : RepositorySource) (value : Value)
    (calls : List TagCall) : Type 0 where
  pub model : Root
  pub loaded : services.model source ≡ ok model
  pub above : model.main.major < value.value
  pub sha : ShaRef
  pub of_main : create_sha model.main.main.sha ≡ ok sha
  pub tagged : calls ≡ record { source = source; sha = sha; name = major_name value.value } ∷ []
  pub meant : normalize (entity (tag (major_name value.value))) ≡ some (major_tag value.value)

module _ (services : Services) (source : RepositorySource) (value : Value) where
  abbrev call : ShaRef → TagCall
  call sha = record { source = source; sha = sha; name = major_name value.value }

  create_major_tag-calls :
      (sha : ShaRef) → (create_major_tag services source value sha).0 ≡ call sha ∷ []
  unfolding create_major_tag
  create_major_tag-calls sha =
      elim (Result-cases (services.create_tag source sha (major_name value.value))) [
        | inl (m, h) ↦ rw h refl
        | inr (_, h) ↦ rw h refl
      ]

  apply_to-created :
      (model : Root)
      → services.model source ≡ ok model
      → (apply_to services source value model).1 ≡ ok created
      → CreatedEffect services source value (apply_to services source value model).0
  unfolding apply_to
  apply_to-created model loaded h = elim (Bool-cases (ltb model.main.major value.value)) [
    | inr l ↦ let no : ok exists ≡ ok created = rw l at h in cc
    | inl l ↦ elim (Result-cases (create_sha model.main.main.sha)) [
      | inl (m, c) ↦ let no : err m ≡ ok created = rw (l, c) at h in cc
      | inr (sha, c) ↦ record {
        model = model;
        loaded = loaded;
        above = ltb→lt model.main.major value.value l;
        sha = sha;
        of_main = c;
        tagged = rw (l, c) (create_major_tag-calls sha);
        meant = normalize-major value.value;
      }
    ]
  ]

  process_serie-created :
      (force_apply : Bool) (serie : MajorSerie)
      → (process_serie services source value force_apply serie).1 ≡ ok created
      → CreatedEffect services source value
          (process_serie services source value force_apply serie).0
  unfolding process_serie
  process_serie-created force_apply serie h = elim (Bool-cases (serie.id == value.id)) [
    | inr i ↦ let no : ok not_subscribed ≡ ok created = rw i at h in cc
    | inl i ↦ elim (Bool-cases (serie.auto_apply || force_apply)) [
      | inr a ↦ let no : ok manual ≡ ok created = rw (i, a) at h in cc
      | inl a ↦ elim (Result-cases (services.model source)) [
        | inl (m, l) ↦ let no : err m ≡ ok created = rw (i, a, l) at h in cc
        | inr (model, l) ↦
            let applied : (apply_to services source value model).1 ≡ ok created =
              rw (i, a, l) at h in
            rw (i, a, l) (apply_to-created model l applied)
      ]
    ]
  ]

  configured-created :
      (force_apply : Bool) (config : Option RepositoryConfig)
      → (configured services source value force_apply config).1 ≡ ok created
      → CreatedEffect services source value (configured services source value force_apply config).0
  configured-created force_apply none h = cc
  configured-created force_apply (some config) h = serie config.major_serie h
    where
      serie :
          (s : Option MajorSerie)
          → (subscribed services source value force_apply s).1 ≡ ok created
          → CreatedEffect services source value (subscribed services source value force_apply s).0
      serie none h = cc
      serie (some s) h = process_serie-created force_apply s h

recover-created :
    (calls : List TagCall) (r : Result ApplyAction)
    → (recover calls r (λ (e : Text). pure failed)).1 ≡ ok created
    → (r ≡ ok created) × ((recover calls r (λ (e : Text). pure failed)).0 ≡ calls)
recover-created calls (ok a) h = (h, refl)
recover-created calls (err m) h = let no : ok failed ≡ ok created = h in cc

-- When the answer for a repository is that the major was created, the model of the repository could
-- be had, the value is above the major of its main container, and exactly one tag was asked for: on
-- the sha of the main branch, with a name that is read as the tag of the major of that value.
pub process_source-CreatedEffect :
    (services : Services) (source : RepositorySource) (value : Value) (force_apply : Bool)
    → (process_source services source value force_apply).1 ≡ ok created
    → CreatedEffect services source value (process_source services source value force_apply).0
unfolding process_source
process_source-CreatedEffect services source value force_apply h =
    elim (Result-cases (services.repository_config source)) [
      | inl (m, c) ↦ let no : ok failed ≡ ok created = rw c at h in cc
      | inr (config, c) ↦
          let a : Promise TagCall ApplyAction =
            configured services source value force_apply config in
          let result : (recover a.0 a.1 (λ (e : Text). pure failed)).1 ≡ ok created = rw c at h in
          let (fine, calls) = recover-created a.0 a.1 result in
          rw (c, calls) (configured-created services source value force_apply config fine)
    ]
