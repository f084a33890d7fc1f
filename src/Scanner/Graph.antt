-- ===== src/Scanner/Graph.antt =====
-- backend/src/repositories/scanner/dependency-graph-impl.ts: the dependencies of a repository, with
-- those of each of them, and the problems that they have.
pub mod Collected
use common_build.Common.{
  ℕ, ◌+◌, Bool, true, false, List, [], ◌∷◌, ◌++◌, if◌then◌else◌, ltb, length, Option, none, some,
}
use common_build.Common.Text.{Text, codes, ◌==◌}
use common_build.Common.Result.{Result, ok, err, ◌>>=◌}
use common_build.Lodash.{Lodash}
use common_build.Domain.Version.{Version, create, as_string}
use common_build.Domain.DependencyRef.{DependencyRef, image_ref, serialize, deserialize, equals}

-- `GraphTree`, and the list of its dependencies
mutual
  pub data GraphTree : Type 0 where
    graph_tree : DependencyRef → Version → Graphs → GraphTree

  pub data Graphs : Type 0 where
    no_graphs : Graphs
    graphs : GraphTree → Graphs → Graphs

-- A visit: the ref, the version, the depth
pub record Visit : Type 0 where
  pub ref : DependencyRef
  pub version : Version
  pub depth : ℕ

-- `traverse`: the calls of the visitor, in order
unfoldable mutual
  pub traverse_graph : GraphTree → ℕ → List Visit
  traverse_graph (graph_tree ref version dependencies) depth =
      record { ref = ref; version = version; depth = depth }
      ∷ traverse_graphs dependencies (depth + 1)

  pub traverse_graphs : Graphs → ℕ → List Visit
  traverse_graphs no_graphs depth = []
  traverse_graphs (graphs g gs) depth = traverse_graph g depth ++ traverse_graphs gs depth

unfoldable pub traverse : Graphs → List Visit
traverse gs = traverse_graphs gs 0

-- `Map<string, string[]>`, in the order in which its keys were set first
abbrev pub Versions : Type 0
Versions = List (Text × List Text)

-- `allVersionsByRef.set(ref, _.concat(allVersionsByRef.get(ref) || [], version))`
unfoldable pub set_version : Text → Text → Versions → Versions
set_version ref version [] = (ref, version ∷ []) ∷ []
set_version ref version ((r, vs) ∷ rest) =
    let later = set_version ref version rest in
    if r == ref then (r, vs ++ version ∷ []) ∷ rest else (r, vs) ∷ later

unfoldable mutual
  pub collect_graph : GraphTree → Versions → Versions
  collect_graph (graph_tree ref version dependencies) all =
      collect_graphs dependencies (set_version (serialize ref) (as_string version) all)

  pub collect_graphs : Graphs → Versions → Versions
  collect_graphs no_graphs all = all
  collect_graphs (graphs g gs) all = collect_graphs gs (collect_graph g all)

-- `MultipleVersionsProblem`
pub record MultipleVersionsProblem : Type 0 where
  pub ref : DependencyRef
  pub versions : List Version

-- `BuildYamlScanner.TOOL_IMAGE`
abbrev pub tool_image : DependencyRef
tool_image =
    image_ref (some (codes "artcsp-docker.ara-artifactory.volvocars.biz"))
      (some (codes "vcc/common-build-agent"))

unfoldable pub create_versions : List Text → Result (List Version)
create_versions [] = ok []
create_versions (v ∷ vs) = do
  version ← create v
  versions ← create_versions vs
  ok (version ∷ versions)

-- What a ref with several versions adds
unfoldable pub problem_of : List Text → DependencyRef → Result (List MultipleVersionsProblem)
problem_of versions ref =
    if equals ref tool_image
    then ok []
    else (create_versions versions >>= (λ vs. ok (record { ref = ref; versions = vs } ∷ [])))

unfoldable pub problems_of : Text → List Text → Result (List MultipleVersionsProblem)
problems_of ref versions =
    if ltb 1 (length versions) then (deserialize ref >>= (λ r. problem_of versions r)) else ok []

unfoldable pub all_problems : Lodash → Versions → Result (List MultipleVersionsProblem)
all_problems lodash [] = ok []
all_problems lodash ((ref, versions) ∷ rest) = do
  here ← problems_of ref (lodash.uniq versions)
  later ← all_problems lodash rest
  ok (here ++ later)

-- `getProblems`
unfoldable pub get_problems : Lodash → Graphs → Result (List MultipleVersionsProblem)
get_problems lodash gs = all_problems lodash (collect_graphs gs [])
