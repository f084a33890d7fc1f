-- ===== src/Scanner/Examples.antt =====
-- The theorems about dependency graphs at a concrete graph: a ref that is visited twice.
use common_build.Common.{◌≡◌, [], ◌∷◌, some}
use common_build.Common.Text.{codes}
use common_build.Domain.DependencyRef.{DependencyRef, image_ref, serialize}
use common_build.Scanner.Graph.{Graphs, graph_tree, graphs, no_graphs, traverse, collect_graphs}
use common_build.Scanner.Graph.Collected.{versions_of, visited, versions_of-collect_graphs}

abbrev image : DependencyRef
image = image_ref (some (codes "r")) (some (codes "i"))

abbrev diamond : Graphs
diamond =
    graphs
      (graph_tree image (record { segments = 1 ∷ 0 ∷ [] })
        (graphs (graph_tree image (record { segments = 2 ∷ 0 ∷ [] }) no_graphs) no_graphs))
      no_graphs

versions_of-collect_graphs_example :
    versions_of (serialize image) (collect_graphs diamond [])
    ≡ visited (serialize image) (traverse diamond)
versions_of-collect_graphs_example = versions_of-collect_graphs diamond (serialize image)
