-- ===== src/Scanner/Graph/Collected.antt =====
-- The versions that are collected for a ref are those of its visits.
use mathlib.Core.List.{append-nil, append_assoc}
use common_build.Common.{
  ◌≡◌, refl, sym, ap, ◌∙◌, inl, inr, ℕ, ◌+◌, false, List, [], ◌∷◌, ◌++◌, map, keep, if◌then◌else◌,
  Bool-cases,
}
use common_build.Common.Text.{Text, ◌==◌, eq_sound, eq-true}
use common_build.Domain.Version.{as_string}
use common_build.Domain.DependencyRef.{serialize}
use common_build.Scanner.Graph.{
  GraphTree, Graphs, graph_tree, graphs, no_graphs, Visit, traverse_graph, traverse_graphs,
  traverse, Versions, set_version, collect_graph, collect_graphs,
}

-- The versions of a ref in a map
unfoldable pub versions_of : Text → Versions → List Text
versions_of ref [] = []
versions_of ref ((r, vs) ∷ rest) = if r == ref then vs else versions_of ref rest

-- The versions with which a ref is visited, in the order of the visits
unfoldable pub visited : Text → List Visit → List Text
visited ref visits = map (λ v. as_string v.version) (keep (λ v. serialize v.ref == ref) visits)

set_all : List Visit → Versions → Versions
set_all [] all = all
set_all (v ∷ vs) all = set_all vs (set_version (serialize v.ref) (as_string v.version) all)

set_all-append :
    (xs ys : List Visit) (all : Versions) → set_all (xs ++ ys) all ≡ set_all ys (set_all xs all)
unfolding set_all
set_all-append [] ys all = refl
set_all-append (x ∷ xs) ys all =
    set_all-append xs ys (set_version (serialize x.ref) (as_string x.version) all)

mutual
  unfolding collect_graph traverse_graph collect_graphs traverse_graphs set_all

  collect_graph-lem :
      (g : GraphTree) (depth : ℕ) (all : Versions)
      → collect_graph g all ≡ set_all (traverse_graph g depth) all
  collect_graph-lem (graph_tree ref version dependencies) depth all =
      collect_graphs-lem dependencies (depth + 1)
        (set_version (serialize ref) (as_string version) all)

  collect_graphs-lem :
      (gs : Graphs) (depth : ℕ) (all : Versions)
      → collect_graphs gs all ≡ set_all (traverse_graphs gs depth) all
  collect_graphs-lem no_graphs depth all = refl
  collect_graphs-lem (graphs g gs) depth all =
      collect_graphs-lem gs depth (collect_graph g all)
      ∙ ap (λ m. set_all (traverse_graphs gs depth) m) (collect_graph-lem g depth all)
      ∙ sym (set_all-append (traverse_graph g depth) (traverse_graphs gs depth) all)

versions_of-same :
    (ref version : Text) (all : Versions)
    → versions_of ref (set_version ref version all) ≡ versions_of ref all ++ version ∷ []
unfolding versions_of set_version
versions_of-same ref version [] = rw (eq-true ref) refl
versions_of-same ref version ((r, vs) ∷ rest) = elim (Bool-cases (r == ref)) [
  | inl e ↦ rw e (rw e refl)
  | inr e ↦ rw e (rw e (versions_of-same ref version rest))
]

versions_of-other :
    (ref other version : Text) (all : Versions)
    → (other == ref) ≡ false
    → versions_of ref (set_version other version all) ≡ versions_of ref all
unfolding versions_of set_version
versions_of-other ref other version [] h = rw h refl
versions_of-other ref other version ((r, vs) ∷ rest) h = elim (Bool-cases (r == other)) [
  | inl e ↦ rw (e, ap (λ w. w == ref) (eq_sound r other e) ∙ h) refl
  | inr e ↦ rw e (elim (Bool-cases (r == ref)) [
    | inl k ↦ rw k refl
    | inr k ↦ rw k (versions_of-other ref other version rest h)
  ])
]

versions_of-set_all :
    (ref : Text) (visits : List Visit) (all : Versions)
    → versions_of ref (set_all visits all) ≡ versions_of ref all ++ visited ref visits
unfolding set_all visited
versions_of-set_all ref [] all = sym (append-nil (versions_of ref all))
versions_of-set_all ref (v ∷ vs) all =
    let rest =
      versions_of-set_all ref vs (set_version (serialize v.ref) (as_string v.version) all) in
    elim (Bool-cases (serialize v.ref == ref)) [
      | inl e ↦ rw e (
          rest
          ∙ ap (λ l. l ++ visited ref vs)
              (ap (λ r. versions_of ref (set_version r (as_string v.version) all))
                  (eq_sound (serialize v.ref) ref e)
                ∙ versions_of-same ref (as_string v.version) all)
          ∙ append_assoc (versions_of ref all) (as_string v.version ∷ []) (visited ref vs))
      | inr e ↦ rw e (
          rest
          ∙ ap (λ l. l ++ visited ref vs)
              (versions_of-other ref (serialize v.ref) (as_string v.version) all e))
    ]

-- The versions that `getProblems` collects for a ref in its map, by its own recursion over the
-- graphs, are the versions of the visits in which `traverse` calls its visitor with that ref, in the
-- same order, repetitions included.
pub versions_of-collect_graphs :
    (gs : Graphs) (ref : Text) → versions_of ref (collect_graphs gs []) ≡ visited ref (traverse gs)
unfolding traverse versions_of
versions_of-collect_graphs gs ref =
    ap (versions_of ref) (collect_graphs-lem gs 0 [])
    ∙ versions_of-set_all ref (traverse_graphs gs 0) []
