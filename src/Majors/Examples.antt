-- ===== src/Majors/Examples.antt =====
-- Runs of the modelled code, and the theorem at a concrete serie.
use common_build.Common.Text.{codes, ◌==◌}
use common_build.Common.Result.{ok}
use common_build.Common.{none, some, true, false}
use common_build.Domain.Source.{RepositorySource}
use common_build.Domain.Refs.{create_sha, is_sha}
use common_build.BuildSystem.Actions.{nothing}
use common_build.Majors.Application.{
  Services, process_source, process_serie, apply_to, create_major_tag,
}
use common_build.Majors.Application.Created.{CreatedEffect, process_source-CreatedEffect}
use common_build.Common.{ℕ, ◌≡◌, refl, List, [], ◌∷◌, none, some, if◌then◌else◌, arith}
use common_build.Common.Text.{Text, codes, ◌==◌}
use common_build.Common.Result.{ok}
use common_build.Lodash.Laws.{documented}
use common_build.Majors.{
  Serie, add_value, store_value, change_series, replace, raise, returned_of, too_low,
}
use common_build.Majors.Raised.{raise_lem, is_above, first_or_0}

raise_lem_example :
    raise documented [] 4 (3 ∷ 1 ∷ [])
    ≡ (if is_above 4 (3 ∷ 1 ∷ []) then ok (4 ∷ 3 ∷ 1 ∷ []) else too_low 4 (first_or_0 (3 ∷ 1 ∷ [])))
raise_lem_example =
    raise_lem documented [] 4 (3 ∷ 1 ∷ []) (omega arith) ((omega arith, tt), (tt, tt))

abbrev ids : List Text
ids = codes "a" ∷ codes "b" ∷ []

abbrev serie : Text → List ℕ → Serie
serie id values = record { id = id; values = values }

-- A value for the first serie is stored, and the last serie is returned.
first_serie_test :
    add_value documented ids
      (λ _. ok tt)
      (record { id = codes "a"; value = 2 })
      (ok (serie (codes "a") (1 ∷ []) ∷ serie (codes "b") (7 ∷ []) ∷ []))
    ≡ ok (record {
      written = serie (codes "a") (2 ∷ 1 ∷ []) ∷ serie (codes "b") (7 ∷ []) ∷ [];
      returned = some (serie (codes "b") (7 ∷ []));
      cached = none;
    })
unfolding add_value store_value change_series replace raise returned_of ◌==◌
first_serie_test = refl

-- A repository whose main branch is at major 0, and a serie that it follows by itself
abbrev applied_services : Services
applied_services = record {
  repository_config = λ source. ok (
      some (record {
        build_automation = record { default_action = nothing; labels = [] };
        active_system = none;
        major_serie = some (record { id = codes "s"; auto_apply = true });
      }));
  model = λ source. ok (record {
    main = record {
      major = 0;
      main = record { name = codes "main"; sha = codes "0123456789abcdef0123456789abcdef01234567" };
      minors = [];
      start = none;
    };
    majors = [];
  });
  create_tag = λ source sha name. ok tt;
}

abbrev applied_source : RepositorySource
applied_source = record { id = codes "g"; path = codes "r" }

process_source-CreatedEffect_example :
    CreatedEffect applied_services applied_source
      (record { id = codes "s"; value = 3 })
      (process_source applied_services applied_source
        (record { id = codes "s"; value = 3 })
        false).0
unfolding process_source process_serie apply_to create_major_tag create_sha is_sha ◌==◌
process_source-CreatedEffect_example =
    process_source-CreatedEffect applied_services applied_source
      (record { id = codes "s"; value = 3 }) false refl
