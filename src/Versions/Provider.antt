-- ===== src/Versions/Provider.antt =====
-- backend/src/repositories/scanner/dependency-provider-impl.ts: the version that an update of a
-- dependency picks, from the cache of lookups and a selector. The configuration of a repository,
-- of which the name of its serie is read, is a parameter.
use common_build.Common.{◌≡◌, inl, inr, refl, Option, none, some}
use common_build.Common.Text.{Text}
use common_build.Common.Result.{Result, ok, err, Result-cases}
use common_build.Lodash.{Lodash}
use common_build.Domain.Source.{RepositorySource}
use common_build.Domain.Version.{Version}
use common_build.Domain.DependencyRef.{DependencyRef}
use common_build.Versions.Selectors.{Selector, bound, pick}
use common_build.Versions.Highest.{IsHighestMajor, pick-IsHighestMajor}
use common_build.Versions.Cache.{
  CacheRedis, CacheStore, CacheEntry, ContainerCodec, Lookups, get_all_versions,
}

-- `config?.majorSerie?.id`, in the configuration of a repository
abbrev pub Series : Type 0
Series = RepositorySource → Result (Option Text)

-- `getDependencySerie`
unfoldable pub dependency_serie : Series → Option RepositorySource → Result (Option Text)
dependency_serie series none = ok none
dependency_serie series (some origin) = series origin

module _ (lodash : Lodash) (series : Series) (selector : Selector) (current : Version) where
  unfoldable pub pick_in : CacheEntry → Result (Option Text) → Result (Option Version)
  pick_in entry (err message) = err message
  pick_in entry (ok serie) = pick lodash selector entry.container current serie

  unfoldable pub of_entry : Result (Option CacheEntry) → Result (Option Version)
  of_entry (err message) = err message
  of_entry (ok none) = ok none
  of_entry (ok (some entry)) = pick_in entry (dependency_serie series entry.origin)

-- `getVersion`
unfoldable pub get_version :
    CacheRedis
    → ContainerCodec
    → Lookups
    → Lodash
    → Series
    → Selector
    → DependencyRef
    → Version
    → CacheStore
    → Result (Option Version) × CacheStore
get_version redis codec lookups lodash series selector ref current s =
    let (found, s₁) = get_all_versions redis codec lookups ref s in
    (of_entry lodash series selector current found, s₁)

-- The version is the selector's pick from the entry's container, with the serie of the entry's
-- origin, and of the highest major in it that the selector admits.
pub record IsPicked (lodash : Lodash) (series : Series) (selector : Selector) (current v : Version)
    (found : Result (Option CacheEntry)) : Type 0 where
  pub entry : CacheEntry
  pub is_found : found ≡ ok (some entry)
  pub serie : Option Text
  pub is_serie : dependency_serie series entry.origin ≡ ok serie
  pub picked : pick lodash selector entry.container current serie ≡ ok (some v)
  pub highest : IsHighestMajor (bound selector current serie) entry.container v

pick_in-IsPicked :
    (lodash : Lodash) (series : Series) (selector : Selector) (current v : Version)
    (entry : CacheEntry)
    → pick_in lodash series selector current entry (dependency_serie series entry.origin)
      ≡ ok (some v)
    → IsPicked lodash series selector current v (ok (some entry))
unfolding pick_in
pick_in-IsPicked lodash series selector current v entry h =
    elim (Result-cases (dependency_serie series entry.origin)) [
      | inl (m, e) ↦ (let no : err m ≡ ok (some v) = rw e at h in cc)
      | inr (serie, e) ↦ record {
        entry = entry;
        is_found = refl;
        serie = serie;
        is_serie = e;
        picked = rw e at h;
        highest = pick-IsHighestMajor lodash selector entry.container current v serie (rw e at h);
      }
    ]

of_entry-IsPicked :
    (lodash : Lodash) (series : Series) (selector : Selector) (current v : Version)
    (found : Result (Option CacheEntry))
    → of_entry lodash series selector current found ≡ ok (some v)
    → IsPicked lodash series selector current v found
unfolding of_entry
of_entry-IsPicked lodash series selector current v (err m) h = cc
of_entry-IsPicked lodash series selector current v (ok none) h = cc
of_entry-IsPicked lodash series selector current v (ok (some entry)) h =
    pick_in-IsPicked lodash series selector current v entry h

-- A version that the provider answers is the selector's pick from the entry that the cache answers,
-- with the serie of the entry's origin; its major is one of the entry's container, and the highest
-- of those that are at most the major that the selector asks for, where it asks for one.
pub get_version-IsPicked :
    (redis : CacheRedis) (codec : ContainerCodec) (lookups : Lookups) (lodash : Lodash)
    (series : Series) (selector : Selector) (ref : DependencyRef) (current v : Version)
    (s : CacheStore)
    → (get_version redis codec lookups lodash series selector ref current s).0 ≡ ok (some v)
    → IsPicked lodash series selector current v (get_all_versions redis codec lookups ref s).0
unfolding get_version
get_version-IsPicked redis codec lookups lodash series selector ref current v s h =
    of_entry-IsPicked lodash series selector current v
      (get_all_versions redis codec lookups ref s).0 h
