-- ===== src/Repository/Raw/Loaded.antt =====
-- What is loaded: the raw data, and the model.
use common_build.Common.{◌≡◌, refl, sym, ap, ◌∙◌, true, List, [], ◌∷◌, ◌++◌, Option, none, some}
use mathlib.Core.List.{append-nil, append_assoc}
use common_build.Common.Text.{Text, codes}
use common_build.Common.Result.{Result, ok, err}
use common_build.Lodash.{Lodash}
use common_build.Domain.Refs.{entity}
use common_build.Domain.Source.{is_truthy}
use common_build.Repository.Model.{RawData, StringSha, NumberSha, NumbersSha}
use common_build.Repository.Normalized.{
  NormalizedRef, normalize, patch_branch, main_branch, release_tag, major_tag,
}
use common_build.Repository.Converter.{convert_model}
use common_build.Repository.Converter.Order.{convert_model-IsOrdered}
use common_build.Repository.Ordered.{IsOrdered}
use common_build.Repository.Raw.{
  RefSha, Collected, nothing_yet, collect_one, collect_all, get_raw_model, ModelCodec, get_model,
  with_main,
}

-- The reference: each kind of refs picked out by itself
unfoldable pub release_of : RefSha → Option NormalizedRef → List NumbersSha
release_of e (some (release_tag first others)) =
    record { first = first; others = others; sha = e.sha.sha } ∷ []
release_of e _ = []

unfoldable pub patch_of : RefSha → Option NormalizedRef → List NumbersSha
patch_of e (some (patch_branch first others)) =
    record { first = first; others = others; sha = e.sha.sha } ∷ []
patch_of e _ = []

unfoldable pub major_of : RefSha → Option NormalizedRef → List NumberSha
major_of e (some (major_tag major)) = record { number = major; sha = e.sha.sha } ∷ []
major_of e _ = []

unfoldable pub picked :
    {A : Type 0} → (RefSha → Option NormalizedRef → List A) → List RefSha → List A
picked f [] = []
picked f (e ∷ es) = f e (normalize (entity e.ref)) ++ picked f es

unfoldable pub main_of : RefSha → Option NormalizedRef → Option StringSha
main_of e (some (main_branch name)) = some (record { name = name; sha = e.sha.sha })
main_of e _ = none

abbrev prefer : Option StringSha → Option StringSha → Option StringSha
prefer (some a) b = some a
prefer none b = b

-- The last main branch
unfoldable pub last_main : List RefSha → Option StringSha
last_main [] = none
last_main (e ∷ es) = prefer (last_main es) (main_of e (normalize (entity e.ref)))

abbrev IsCollected :
    Option StringSha
    → List NumbersSha
    → List NumbersSha
    → List NumberSha
    → Collected
    → Collected
    → Type 0
IsCollected main releases patches majors c d =
    (d.main ≡ prefer main c.main)
    × (d.release_tags ≡ c.release_tags ++ releases)
    × (d.patch_branches ≡ c.patch_branches ++ patches)
    × (d.majors ≡ c.majors ++ majors)

nil {ℓ} : {A : Type ℓ} (l : List A) → l ≡ l ++ []
nil l = sym (append-nil l)

collect_one-lem :
    (e : RefSha) (n : Option NormalizedRef) (c : Collected)
    → IsCollected
        (main_of e n)
        (release_of e n)
        (patch_of e n)
        (major_of e n)
        c
        (collect_one n e.sha.sha c)
unfolding collect_one release_of patch_of major_of main_of
collect_one-lem e none c = (refl, nil c.release_tags, nil c.patch_branches, nil c.majors)
collect_one-lem e (some (release_tag first others)) c =
    (refl, refl, nil c.patch_branches, nil c.majors)
collect_one-lem e (some (patch_branch first others)) c =
    (refl, nil c.release_tags, refl, nil c.majors)
collect_one-lem e (some (major_tag major)) c =
    (refl, nil c.release_tags, nil c.patch_branches, refl)
collect_one-lem e (some (main_branch name)) c =
    (refl, nil c.release_tags, nil c.patch_branches, nil c.majors)

prefer_assoc : (a b c : Option StringSha) → prefer a (prefer b c) ≡ prefer (prefer a b) c
prefer_assoc (some x) b c = refl
prefer_assoc none b c = refl

joined : {A : Type 0} (x y z w v : List A) → w ≡ x ++ y → v ≡ w ++ z → v ≡ x ++ (y ++ z)
joined x y z w v h k = k ∙ ap (λ l. l ++ z) h ∙ append_assoc x y z

-- The loop gives what the reference picks, behind what there was.
collect_all-lem :
    (es : List RefSha) (c : Collected)
    → IsCollected
        (last_main es)
        (picked release_of es)
        (picked patch_of es)
        (picked major_of es)
        c
        (collect_all es c)
unfolding collect_all last_main picked
collect_all-lem [] c = (refl, nil c.release_tags, nil c.patch_branches, nil c.majors)
collect_all-lem (e ∷ es) c =
    let d = collect_one (normalize (entity e.ref)) e.sha.sha c in
    let (main, releases, patches, majors) = collect_one-lem e (normalize (entity e.ref)) c in
    let (main', releases', patches', majors') = collect_all-lem es d in
    (
      main'
          ∙ ap (prefer (last_main es)) main
          ∙ prefer_assoc (last_main es) (main_of e (normalize (entity e.ref))) c.main,
      joined _ _ _ _ _ releases releases',
      joined _ _ _ _ _ patches patches',
      joined _ _ _ _ _ majors majors',
    )

-- The raw data of the parts
abbrev pub data_of :
    Option StringSha → List NumbersSha → List NumbersSha → List NumberSha → Result RawData
data_of none releases patches majors =
    err (codes "Could not build repository model data. Missing main branch.")
data_of (some main) releases patches majors =
    ok (record {
      main = main;
      release_tags = releases;
      patch_branches = patches;
      major_tags = majors;
    })

prefer-none : (o : Option StringSha) → prefer o none ≡ o
prefer-none none = refl
prefer-none (some a) = refl

with_main-lem :
    (c : Collected) (main : Option StringSha)
    → with_main c main ≡ data_of main c.release_tags c.patch_branches c.majors
with_main-lem c none = refl
with_main-lem c (some main) = refl

-- The raw data that are read from the refs of a repository, in one loop, are those of picking the
-- release tags, the patch branches and the tags of majors by themselves, each in the order of the
-- refs, with the last main branch; without a main branch there is an error, whatever else there is.
pub get_raw_model-picked :
    (es : List RefSha)
    → get_raw_model es
      ≡ data_of (last_main es) (picked release_of es) (picked patch_of es) (picked major_of es)
unfolding get_raw_model
get_raw_model-picked es =
    let (main, releases, patches, majors) = collect_all-lem es nothing_yet in
    with_main-lem (collect_all es nothing_yet) (collect_all es nothing_yet).main
    ∙ rw (main, releases, patches, majors, prefer-none (last_main es)) refl

copied :
    (lodash : Lodash) (codec : ModelCodec) (t : Text) (entities : Result (List RefSha))
    → is_truthy t ≡ true
    → get_model lodash codec (some t) entities ≡ (codec.to_instance t, some t)
unfolding get_model
copied lodash codec [] entities h = cc
copied lodash codec (c ∷ t) entities h = refl

-- Once the model of a repository with a main branch was loaded, it is ordered, and asking again gives
-- the same model from the copy, whatever the source would then answer, and leaves the copy as it is,
-- if the codec writes the model as a text that is not empty, and reads it back.
pub get_model-again :
    (lodash : Lodash) (codec : ModelCodec) (es : List RefSha) (raw : RawData)
    (later : Result (List RefSha))
    → get_raw_model es ≡ ok raw
    → is_truthy (codec.to_json (convert_model lodash raw)) ≡ true
    → codec.to_instance (codec.to_json (convert_model lodash raw)) ≡ ok (convert_model lodash raw)
    → IsOrdered (convert_model lodash raw)
      × ((get_model lodash codec none (ok es)).0 ≡ ok (convert_model lodash raw))
      × (get_model lodash codec (get_model lodash codec none (ok es)).1 later
          ≡ get_model lodash codec none (ok es))
unfolding get_model
get_model-again lodash codec es raw later h is_text is_read =
    let model = convert_model lodash raw in
    (
      convert_model-IsOrdered lodash raw,
      rw h refl,
      rw h (
          copied lodash codec (codec.to_json model) later is_text
          ∙ ap (λ r. (r, some (codec.to_json model))) is_read),
    )
