-- ===== src/Repository/Converter.antt =====
-- backend/src/repositories/repository/raw-data-to-model-converter.ts: how the model of a repository
-- is built from the raw data. An object whose keys are numbers is a list of its entries with
-- ascending keys, the order in which the language lists them. A builder that is shared and mutated
-- is reached through its key alone, so that a mutation is an update of its entry.
pub mod Stores
pub mod Order
pub mod Branches
use common_build.Common.{
  ℕ, ◌==◌, not, Bool, List, [], ◌∷◌, Option, none, some, map, keep, length, ltb, if◌then◌else◌,
}
use common_build.Common.Text.{Text}
use common_build.Common.Int.{neg}
use common_build.Lodash.{Lodash}
use common_build.Repository.Model.{
  Root, MainContainer, MajorContainer, MinorContainer, Release, MainBranch, RawData, StringSha,
  NumberSha, NumbersSha,
}

-- `obj[key]`, made by `create` when it is missing, is changed by `change`.
unfoldable pub update : {A : Type 0} → (ℕ → A) → (A → A) → ℕ → List (ℕ × A) → List (ℕ × A)
update create change k [] = (k, change (create k)) ∷ []
update create change k ((j, a) ∷ es) =
    let rest = update create change k es in
    if ltb k j
    then (k, change (create k)) ∷ (j, a) ∷ es
    else if k == j
    then (j, change a) ∷ es
    else (j, a) ∷ rest

-- `Object.values`
abbrev pub values : {A : Type 0} → List (ℕ × A) → List A
values es = map (λ e. e.1) es

-- `delete obj[key]`
abbrev pub remove : {A : Type 0} → ℕ → List (ℕ × A) → List (ℕ × A)
remove k es = keep (λ e. not (k == e.0)) es

-- `MinorContainerBuilder`
pub record MinorBuilder : Type 0 where
  pub minor : ℕ
  pub branch_sha : Option Text
  pub releases : List (ℕ × Text)

abbrev pub new_minor : ℕ → MinorBuilder
new_minor n = record { minor = n; branch_sha = none; releases = [] }

abbrev pub set_minor_branch : Text → MinorBuilder → MinorBuilder
set_minor_branch sha b = record { minor = b.minor; branch_sha = some sha; releases = b.releases }

abbrev pub add_release : ℕ → Text → MinorBuilder → MinorBuilder
add_release patch sha b = record {
  minor = b.minor;
  branch_sha = b.branch_sha;
  releases = update (λ _. sha) (λ _. sha) patch b.releases;
}

-- `MajorContainerBuilder`
pub record MajorBuilder : Type 0 where
  pub major : ℕ
  pub branch_sha : Option Text
  pub start : Option Text
  pub minors : List (ℕ × MinorBuilder)

abbrev pub new_major : ℕ → MajorBuilder
new_major n = record { major = n; branch_sha = none; start = none; minors = [] }

abbrev pub set_branch : Text → MajorBuilder → MajorBuilder
set_branch sha b = record {
  major = b.major;
  branch_sha = some sha;
  start = b.start;
  minors = b.minors;
}

abbrev pub set_start : Text → MajorBuilder → MajorBuilder
set_start sha b = record {
  major = b.major;
  branch_sha = b.branch_sha;
  start = some sha;
  minors = b.minors;
}

-- `getMinorBuilder(minor)` and a change of the builder that it returns
abbrev pub with_minor : (MinorBuilder → MinorBuilder) → ℕ → MajorBuilder → MajorBuilder
with_minor change minor b = record {
  major = b.major;
  branch_sha = b.branch_sha;
  start = b.start;
  minors = update new_minor change minor b.minors;
}

abbrev pub Builders : Type 0
Builders = List (ℕ × MajorBuilder)

unfoldable pub add_major_tags : List NumberSha → Builders → Builders
add_major_tags [] bs = bs
add_major_tags (t ∷ ts) bs = add_major_tags ts (update new_major (set_start t.sha) t.number bs)

-- `if (patchBranch.numbers.length = 1)`: the condition is an assignment, whose value is 1.
abbrev pub assigned_length : ℕ
assigned_length = 1

abbrev set_second : List ℕ → Text → MajorBuilder → MajorBuilder
set_second (minor ∷ []) sha b = with_minor (set_minor_branch sha) minor b
set_second _ sha b = b

unfoldable pub patch_branch_change : NumbersSha → MajorBuilder → MajorBuilder
patch_branch_change p b =
    if not (assigned_length == 0) then set_branch p.sha b else set_second p.others p.sha b

unfoldable pub add_patch_branches : List NumbersSha → Builders → Builders
add_patch_branches [] bs = bs
add_patch_branches (p ∷ ps) bs =
    add_patch_branches ps (update new_major (patch_branch_change p) p.first bs)

unfoldable pub release_change : List ℕ → Text → MajorBuilder → MajorBuilder
release_change (minor ∷ patch ∷ []) sha b = with_minor (add_release patch sha) minor b
release_change _ sha b = b

unfoldable pub add_release_tags : List NumbersSha → Builders → Builders
add_release_tags [] bs = bs
add_release_tags (t ∷ ts) bs =
    add_release_tags ts (update new_major (release_change t.others t.sha) t.first bs)

unfoldable pub builders_of : RawData → Builders
builders_of raw =
    add_release_tags raw.release_tags
      (add_patch_branches raw.patch_branches (add_major_tags raw.major_tags []))

module _ (lodash : Lodash) where
  unfoldable pub build_releases : List (ℕ × Text) → List Release
  build_releases es =
      lodash.sort_by _ (map (λ e. record { patch = e.0; sha = e.1 }) es) (λ r. neg r.patch)

  unfoldable pub build_minor : MinorBuilder → MinorContainer
  build_minor b = record {
    minor = b.minor;
    releases = build_releases b.releases;
    branch = b.branch_sha;
  }

  unfoldable pub build_minors : List (ℕ × MinorBuilder) → List MinorContainer
  build_minors es = lodash.sort_by _ (map build_minor (values es)) (λ m. neg m.minor)

  unfoldable pub build_main_container : StringSha → MajorBuilder → MainContainer
  build_main_container main b = record {
    major = b.major;
    main = record { name = main.name; sha = main.sha };
    minors = build_minors b.minors;
    start = b.start;
  }

  unfoldable pub build_major_container : MajorBuilder → MajorContainer
  build_major_container b = record {
    major = b.major;
    minors = build_minors b.minors;
    start = b.start;
    branch = b.branch_sha;
  }

  unfoldable pub empty_root : StringSha → Root
  empty_root main = record {
    main = record {
      major = 0;
      main = record { name = main.name; sha = main.sha };
      minors = [];
      start = none;
    };
    majors = [];
  }

  unfoldable pub root_of : StringSha → Builders → Option MajorBuilder → Root
  root_of main bs none = empty_root main
  root_of main bs (some highest) = record {
    main = build_main_container main highest;
    majors =
        lodash.sort_by _ (map build_major_container (values (remove highest.major bs)))
          (λ m. neg m.major);
  }

  -- `convertModel`
  unfoldable pub convert_model : RawData → Root
  convert_model raw =
      let bs = builders_of raw in root_of raw.main bs (lodash.max_by _ (values bs) (λ b. b.major))
