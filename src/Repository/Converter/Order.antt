-- ===== src/Repository/Converter/Order.antt =====
-- The model that the converter builds is ordered.
use common_build.Common.{
  ℕ, ◌≡◌, ◌≤◌, ◌<◌, List, [], ◌∷◌, map, All, none, some, Option-cases, inl, inr, arith, refl, ◌≢◌,
}
use common_build.Common.Text.{Text}
use common_build.Common.Int.{ℤ, neg}
use common_build.Lodash.{Lodash}
use common_build.Lodash.Laws.{documented, of_documented}
use common_build.Lodash.Functions.{sort_by_list, max_by_list, insert_by}
use common_build.Repository.Model.{
  RawData, NumberSha, NumbersSha, StringSha, MajorContainer, of_major, top_major, top_minors,
  Release,
}
use common_build.Repository.Ordered.{
  IsOrdered, IsOrderedMinors, IsOrderedMinor, HasRelease, Descending, sort_by-Descending,
  All-sort_by,
}
use common_build.Repository.Reader.{all_majors}
use common_build.Repository.Converter.{
  update, values, remove, MinorBuilder, MajorBuilder, Builders, new_minor, new_major, add_release,
  set_start, add_major_tags, add_patch_branches, patch_branch_change, release_change,
  add_release_tags, builders_of, build_releases, build_minor, build_minors, build_main_container,
  build_major_container, empty_root, root_of, convert_model,
}
use common_build.Repository.Converter.Stores.{
  Ascending, All-update, update-Ascending, Ascending-Distinct, values-All, values-Distinct,
  All-remove, remove-Ascending, remove-absent, All-map, Distinct-map, max_by-All, max_by-highest,
}

abbrev HasEntry : List (ℕ × Text) → Type 0
HasEntry [] = ⊥
HasEntry (e ∷ es) = Unit

-- What holds of every builder under its key, while the raw data are added.
abbrev IsMinorAt : ℕ → MinorBuilder → Type 0
IsMinorAt k m = (m.minor ≡ k) × Ascending m.releases × HasEntry m.releases

abbrev IsMajorAt : ℕ → MajorBuilder → Type 0
IsMajorAt k b = (b.major ≡ k) × Ascending b.minors × All (λ e. IsMinorAt e.0 e.1) b.minors

abbrev AreBuilders : Builders → Type 0
AreBuilders bs = Ascending bs × All (λ e. IsMajorAt e.0 e.1) bs

update-HasEntry :
    (create : ℕ → Text) (change : Text → Text) (k : ℕ) (es : List (ℕ × Text))
    → HasEntry (update create change k es)
unfolding update
update-HasEntry create change k [] = tt
update-HasEntry create change k ((j, a) ∷ es) = ground arith

add_release-IsMinorAt :
    (patch : ℕ) (sha : Text) (k : ℕ) (m : MinorBuilder)
    → m.minor ≡ k
    → Ascending m.releases
    → IsMinorAt k (add_release patch sha m)
add_release-IsMinorAt patch sha k m e h = (
  e,
  update-Ascending (λ _. sha) (λ _. sha) patch m.releases h,
  update-HasEntry (λ _. sha) (λ _. sha) patch m.releases,
)

release_change-IsMajorAt :
    (others : List ℕ) (sha : Text) (k : ℕ) (b : MajorBuilder)
    → IsMajorAt k b
    → IsMajorAt k (release_change others sha b)
unfolding release_change
release_change-IsMajorAt [] sha k b h = h
release_change-IsMajorAt (m ∷ []) sha k b h = h
release_change-IsMajorAt (m ∷ p ∷ []) sha k b (e, a, h) = (
  e,
  update-Ascending new_minor (add_release p sha) m b.minors a,
  All-update IsMinorAt new_minor (add_release p sha) m b.minors
      (add_release-IsMinorAt p sha m (new_minor m) refl tt)
      (λ c i. add_release-IsMinorAt p sha m c i.0 i.1) h,
)
release_change-IsMajorAt (m ∷ p ∷ q ∷ r) sha k b h = h

update-AreBuilders :
    (change : MajorBuilder → MajorBuilder) (k : ℕ) (bs : Builders)
    → ((b : MajorBuilder) → IsMajorAt k b → IsMajorAt k (change b))
    → AreBuilders bs
    → AreBuilders (update new_major change k bs)
update-AreBuilders change k bs c (a, h) = (
  update-Ascending new_major change k bs a,
  All-update IsMajorAt new_major change k bs (c (new_major k) (refl, tt, tt)) c h,
)

add_major_tags-AreBuilders :
    (ts : List NumberSha) (bs : Builders) → AreBuilders bs → AreBuilders (add_major_tags ts bs)
unfolding add_major_tags
add_major_tags-AreBuilders [] bs h = h
add_major_tags-AreBuilders (t ∷ ts) bs h =
    add_major_tags-AreBuilders ts (update new_major (set_start t.sha) t.number bs)
      (update-AreBuilders (set_start t.sha) t.number bs (λ b i. i) h)

add_patch_branches-AreBuilders :
    (ps : List NumbersSha) (bs : Builders) → AreBuilders bs → AreBuilders (add_patch_branches ps bs)
unfolding add_patch_branches patch_branch_change
add_patch_branches-AreBuilders [] bs h = h
add_patch_branches-AreBuilders (p ∷ ps) bs h =
    add_patch_branches-AreBuilders ps (update new_major (patch_branch_change p) p.first bs)
      (update-AreBuilders (patch_branch_change p) p.first bs (λ b i. i) h)

add_release_tags-AreBuilders :
    (ts : List NumbersSha) (bs : Builders) → AreBuilders bs → AreBuilders (add_release_tags ts bs)
unfolding add_release_tags
add_release_tags-AreBuilders [] bs h = h
add_release_tags-AreBuilders (t ∷ ts) bs h =
    add_release_tags-AreBuilders ts (update new_major (release_change t.others t.sha) t.first bs) (
      update-AreBuilders (release_change t.others t.sha) t.first bs
        (release_change-IsMajorAt t.others t.sha t.first) h)

builders_of-AreBuilders : (raw : RawData) → AreBuilders (builders_of raw)
unfolding builders_of
builders_of-AreBuilders raw = add_release_tags-AreBuilders raw.release_tags _ (
    add_patch_branches-AreBuilders raw.patch_branches _
      (add_major_tags-AreBuilders raw.major_tags [] (tt, tt)))

insert_by-HasRelease :
    (g : Release → ℤ) (r : Release) (rs : List Release) → HasRelease (insert_by g r rs)
insert_by-HasRelease g r [] = tt
insert_by-HasRelease g r (q ∷ rs) = ground arith

abbrev entry_release : ℕ × Text → Release
entry_release e = record { patch = e.0; sha = e.1 }

build_releases-HasRelease :
    (es : List (ℕ × Text)) → HasEntry es → HasRelease (build_releases documented es)
unfolding build_releases
build_releases-HasRelease [] h = absurd h
build_releases-HasRelease (e ∷ es) h =
    insert_by-HasRelease (λ r. neg r.patch) (entry_release e)
      (sort_by_list (λ r. neg r.patch) (map entry_release es))

build_releases-Descending :
    (es : List (ℕ × Text)) → Ascending es → Descending (λ r. r.patch) (build_releases documented es)
unfolding build_releases
build_releases-Descending es a =
    sort_by-Descending (λ r. r.patch) (map entry_release es)
      (Distinct-map entry_release (λ r. r.patch) es (Ascending-Distinct es a))

build_minor-IsOrderedMinor :
    (k : ℕ) (m : MinorBuilder) → IsMinorAt k m → IsOrderedMinor (build_minor documented m)
unfolding build_minor
build_minor-IsOrderedMinor k m (e, a, h) =
    (build_releases-Descending m.releases a, build_releases-HasRelease m.releases h)

All-imply :
    {A : Type 0} (P Q : A → Type 0) (xs : List A) → ((a : A) → P a → Q a) → All P xs → All Q xs
All-imply P Q [] f h = tt
All-imply P Q (x ∷ xs) f (p, h) = (f x p, All-imply P Q xs f h)

build_minors-IsOrderedMinors :
    (es : List (ℕ × MinorBuilder))
    → Ascending es
    → All (λ e. IsMinorAt e.0 e.1) es
    → IsOrderedMinors (build_minors documented es)
unfolding build_minors build_minor
build_minors-IsOrderedMinors es a h = (
  sort_by-Descending (λ m. m.minor) (map (build_minor documented) (values es))
      (Distinct-map (build_minor documented) (λ m. m.minor) (values es)
        (values-Distinct (λ m. m.minor) es a (All-imply _ _ es (λ e i. i.0) h))),
  All-sort_by (λ m. m.minor) (λ m. neg m.minor) IsOrderedMinor
      (map (build_minor documented) (values es))
      (All-map (build_minor documented) IsOrderedMinor (values es)
        (values-All _ es (All-imply _ _ es (λ e. build_minor-IsOrderedMinor e.0 e.1) h))),
)

abbrev major_of : MajorBuilder → MajorContainer
major_of = build_major_container documented

All-and :
    {A : Type 0} (P Q : A → Type 0) (xs : List A) → All P xs → All Q xs → All (λ a. P a × Q a) xs
All-and P Q [] h k = tt
All-and P Q (x ∷ xs) (p, h) (q, k) = ((p, q), All-and P Q xs h k)

entries-All :
    {A : Type 0} (P : A → Type 0) (es : List (ℕ × A)) → All P (values es) → All (λ e. P e.1) es
entries-All P [] h = tt
entries-All P (e ∷ es) (p, h) = (p, entries-All P es h)

of_major-Descending :
    (ms : List MajorContainer)
    → Descending (λ m. m.major) ms
    → Descending top_major (map of_major ms)
unfolding top_major
of_major-Descending [] h = tt
of_major-Descending (m ∷ ms) (b, h) =
    (All-map of_major (λ y. top_major y < m.major) ms b, of_major-Descending ms h)

-- The builders other than the highest one are below it.
remove-below :
    (bs : Builders) (b : MajorBuilder)
    → AreBuilders bs
    → max_by_list (λ c. c.major) (values bs) ≡ some b
    → All (λ e. e.1.major < b.major) (remove b.major bs)
remove-below bs b (a, h) e =
    All-imply _ _ (remove b.major bs) (λ d (n, (le, m)). below d.0 d.1 n le m.0)
      (All-and _ _ (remove b.major bs) (remove-absent b.major bs) (
        All-remove _ b.major bs (
          All-and (λ d. d.1.major ≤ b.major) _ bs
            (entries-All _ bs (max_by-highest (λ c. c.major) (values bs) e)) h)))
  where
    below :
        (k : ℕ) (c : MajorBuilder)
        → b.major ≢ k
        → c.major ≤ b.major
        → c.major ≡ k
        → c.major < b.major
    below k c n le m = omega arith

major_of-IsOrderedMinors :
    (e : ℕ × MajorBuilder)
    → IsMajorAt e.0 e.1
    → IsOrderedMinors (build_minors documented e.1.minors)
major_of-IsOrderedMinors e (m, a, h) = build_minors-IsOrderedMinors e.1.minors a h

root_of-IsOrdered :
    (main : StringSha) (bs : Builders) (b : MajorBuilder)
    → AreBuilders bs
    → max_by_list (λ c. c.major) (values bs) ≡ some b
    → IsOrdered (root_of documented main bs (some b))
unfolding IsOrdered root_of all_majors top_major top_minors build_main_container
    build_major_container
root_of-IsOrdered main bs b (a, h) e = (
  (
    All-map of_major (λ y. top_major y < b.major) sorted
        (All-sort_by (λ m. m.major) (λ m. neg m.major) (λ m. m.major < b.major) (map major_of rest)
          (All-map major_of (λ m. m.major < b.major) rest
            (values-All _ (remove b.major bs) (remove-below bs b (a, h) e)))),
    of_major-Descending sorted (
        sort_by-Descending (λ m. m.major) (map major_of rest)
          (Distinct-map major_of (λ m. m.major) rest
            (values-Distinct (λ c. c.major) (remove b.major bs) (remove-Ascending b.major bs a)
              (All-imply _ _ (remove b.major bs) (λ d i. i.0) (All-remove _ b.major bs h))))),
  ),
  (
    max_by-All (λ c. c.major) (λ c. IsOrderedMinors (build_minors documented c.minors)) (values bs)
        e (values-All _ bs (All-imply _ _ bs major_of-IsOrderedMinors h)),
    All-map of_major (λ c. IsOrderedMinors (top_minors c)) sorted
        (All-sort_by (λ m. m.major) (λ m. neg m.major) (λ m. IsOrderedMinors m.minors)
          (map major_of rest)
          (All-map major_of (λ m. IsOrderedMinors m.minors) rest
            (values-All _ (remove b.major bs) (
              All-imply _ _ (remove b.major bs) major_of-IsOrderedMinors
                (All-remove _ b.major bs h))))),
  ),
)
  where
    rest : List MajorBuilder
    rest = values (remove b.major bs)

    sorted : List MajorContainer
    sorted = sort_by_list (λ m. neg m.major) (map major_of rest)

empty_root-IsOrdered :
    (main : StringSha) (bs : Builders) → IsOrdered (root_of documented main bs none)
unfolding IsOrdered root_of empty_root all_majors top_minors
empty_root-IsOrdered main bs = ((tt, tt), ((tt, tt), tt))

root_of-max_by-IsOrdered :
    (main : StringSha) (bs : Builders)
    → AreBuilders bs
    → IsOrdered (root_of documented main bs (max_by_list (λ c. c.major) (values bs)))
root_of-max_by-IsOrdered main bs h = elim (Option-cases (max_by_list (λ c. c.major) (values bs))) [
  | inl e ↦ rw e (empty_root-IsOrdered main bs)
  | inr (b, e) ↦ rw e (root_of-IsOrdered main bs b h e)
]

-- Whatever the raw data, the model that `convertModel` builds has the main container's major above
-- all other majors, and the majors, the minors of each and the releases of each stand in strictly
-- descending order, each number once; and each minor has at least one release.
pub convert_model-IsOrdered :
    (lodash : Lodash) (raw : RawData) → IsOrdered (convert_model lodash raw)
unfolding convert_model
convert_model-IsOrdered lodash raw =
    of_documented (λ l. IsOrdered (convert_model l raw))
      (root_of-max_by-IsOrdered raw.main (builders_of raw) (builders_of-AreBuilders raw)) lodash
