-- ===== src/Versions/Cache.antt =====
-- backend/src/repositories/scanner/dependency-lookup-cache-impl.ts: the versions of a dependency are
-- looked up once and kept in Redis, and so is the failure of a lookup. Redis, the codec of
-- class-transformer, Artifactory and the registries are parameters; the times to live are stored,
-- and time does not pass.
pub mod Again
use common_build.Common.{
  ℕ, Bool, true, false, ◌&&◌, ◌≡◌, List, [], ◌∷◌, ◌++◌, Option, none, some, if◌then◌else◌,
}
use common_build.Common.Text.{Text, codes, ◌==◌, join}
use common_build.Common.Result.{Result, ok, err, ◌>>=◌}
use common_build.Domain.Source.{RepositorySource, create_from_string}
use common_build.Domain.Source
use common_build.Domain.Version.{Version, parse}
use common_build.Domain.DependencyRef.{DependencyRef, artifact_ref, image_ref, git_ref}
use common_build.Domain.DependencyRef
use common_build.Publisher.{or_else, repository_id_key}
use common_build.Repository.Model.{Root}
use common_build.Repository.Reader.{all_versions}
use common_build.Tasks.Time.{seconds, from_minutes}
use common_build.Versions.{ModelComposite, from_versions}

-- The hashes, by key and field, and the times to live
pub record CacheStore : Type 0 where
  pub hashes : Text → Text → Option Text
  pub expiry : Text → Option ℕ

unfoldable pub set_field : Text → Text → Text → CacheStore → CacheStore
set_field key field value s = record s {
  hashes = λ k f. if k == key && f == field then some value else s.hashes k f;
}

-- The documented commands
unfoldable pub read_fields : Text → Text → Text → CacheStore → Option Text × Option Text
read_fields key f g s = (s.hashes key f, s.hashes key g)

unfoldable pub write_fields : Text → List (Text × Text) → CacheStore → CacheStore
write_fields key [] s = s
write_fields key ((field, value) ∷ rest) s = write_fields key rest (set_field key field value s)

unfoldable pub set_expiry : Text → ℕ → CacheStore → CacheStore
set_expiry key n s = record s { expiry = λ k. if k == key then some n else s.expiry k }

unfoldable pub delete_key : Text → CacheStore → CacheStore
delete_key key s = record {
  hashes = λ k f. if k == key then none else s.hashes k f;
  expiry = λ k. if k == key then none else s.expiry k;
}

unfoldable pub delete_keys : List Text → CacheStore → CacheStore
delete_keys [] s = s
delete_keys (key ∷ keys) s = delete_keys keys (delete_key key s)

pub record CacheRedis : Type 0 where
  pub hmget : Text → Text → Text → CacheStore → Option Text × Option Text
  pub hmget_law : hmget ≡ read_fields
  pub hmset : Text → List (Text × Text) → CacheStore → CacheStore
  pub hmset_law : hmset ≡ write_fields
  pub expire : Text → ℕ → CacheStore → CacheStore
  pub expire_law : expire ≡ set_expiry
  pub del : List Text → CacheStore → CacheStore
  pub del_law : del ≡ delete_keys

-- `Codec.toJson` and `Codec.toInstance` for `ModelComposite`
pub record ContainerCodec : Type 0 where
  pub to_json : ModelComposite → Text
  pub to_instance : Text → Result ModelComposite

-- A found artifact: its version and its property `repository.id`
abbrev pub Found : Type 0
Found = Text × Option Text

-- The services that are asked. `registry_tags` gives `none` where no registry is configured, and an
-- error where the configured registry is of an unknown kind, which is thrown at once.
pub record Lookups : Type 0 where
  pub model : RepositorySource → Result Root
  pub artifacts : Option Text → Option Text → Option Text → Result (List Found)
  pub registry_tags : Option Text → Result (Option (Option Text → Result (List Text)))

pub record CacheEntry : Type 0 where
  pub container : ModelComposite
  pub origin : Option RepositorySource

abbrev pub serialized_field : Text
serialized_field = codes "serialized"

abbrev pub repository_field : Text
repository_field = codes "repository"

abbrev pub invalid_key : Text
invalid_key = codes "CACHE_INVALID"

unfoldable pub generate_cache_key : DependencyRef → Text
generate_cache_key ref = codes "dependency-lookup-cache:" ++ DependencyRef.serialize ref

unfoldable pub cache_keys : List DependencyRef → List Text
cache_keys [] = []
cache_keys (ref ∷ refs) = generate_cache_key ref ∷ cache_keys refs

-- `invalidate`
unfoldable pub invalidate : CacheRedis → List DependencyRef → CacheStore → CacheStore
invalidate redis refs = redis.del (cache_keys refs)

abbrev pub cons_version : Option Version → List Version → List Version
cons_version none vs = vs
cons_version (some v) vs = v ∷ vs

-- `flatMap` with `Version.parse`
unfoldable pub parse_all : List Text → List Version
parse_all [] = []
parse_all (t ∷ ts) = cons_version (parse t) (parse_all ts)

unfoldable pub texts_of : List Found → List Text
texts_of [] = []
texts_of ((version, _) ∷ found) = version ∷ texts_of found

-- `repositoryIdStr = repositoryIdStr || a.properties[...]`
unfoldable pub first_id : Option Text → List Found → Option Text
first_id acc [] = acc
first_id acc ((_, id) ∷ found) = first_id (or_else acc id) found

-- `text ? f(text) : undefined`
abbrev pub maybe_source :
    (Text → Result RepositorySource) → Option Text → Result (Option RepositorySource)
maybe_source f none = ok none
maybe_source f (some []) = ok none
maybe_source f (some (c ∷ t)) = do s ← f (c ∷ t); ok (some s)

abbrev pub of_model : RepositorySource → Result Root → Result CacheEntry
of_model source model = do
  m ← model
  ok (record { container = from_versions (all_versions m); origin = some source })

abbrev pub of_artifacts : Result (List Found) → Result CacheEntry
of_artifacts artifacts = do
  found ← artifacts
  origin ← maybe_source create_from_string (first_id none found)
  ok (record { container = from_versions (parse_all (texts_of found)); origin = origin })

abbrev pub of_tags : Result (List Text) → Result CacheEntry
of_tags tags = do ts ← tags; ok (record { container = from_versions (parse_all ts); origin = none })

abbrev shown_remote : Option Text → Text
shown_remote none = codes "undefined"
shown_remote (some t) = t

abbrev pub of_registry :
    Option Text
    → Option Text
    → Result (Option (Option Text → Result (List Text)))
    → Result (Result CacheEntry)
of_registry remote repository (err message) = err message
of_registry remote repository (ok (some get_tags)) = ok (of_tags (get_tags repository))
of_registry remote repository (ok none) =
    ok (err (codes "Could not find DockerRegistry config for " ++ shown_remote remote))

-- `createContainer`: an error that is thrown, or a promise
unfoldable pub create_container : Lookups → DependencyRef → Result (Result CacheEntry)
create_container lookups (git_ref source) = ok (of_model source (lookups.model source))
create_container lookups (artifact_ref remote repository path) =
    ok (of_artifacts (lookups.artifacts remote repository path))
create_container lookups (image_ref remote repository) =
    of_registry remote repository (lookups.registry_tags remote)

abbrev pub origin_field : Option RepositorySource → List (Text × Text)
origin_field none = []
origin_field (some source) = (repository_field, Source.serialize source) ∷ []

module _ (redis : CacheRedis) (codec : ContainerCodec) where
  -- What a finished lookup writes, and answers
  unfoldable pub save :
      Text → Result (Result CacheEntry) → CacheStore → Result (Option CacheEntry) × CacheStore
  save key (err thrown) s = (err thrown, s)
  save key (ok (ok entry)) s = (
    ok (some entry),
    redis.expire key (seconds (from_minutes 15)) (
        redis.hmset key
          ((serialized_field, codec.to_json entry.container) ∷ origin_field entry.origin) s),
  )
  save key (ok (err _)) s = (
    ok none,
    redis.expire key (seconds (from_minutes 3))
        (redis.hmset key ((serialized_field, invalid_key) ∷ []) s),
  )

  -- What a stored text answers
  unfoldable pub cached : Text → Option Text → Result (Option CacheEntry)
  cached container repository =
      if container == invalid_key
      then ok none
      else (codec.to_instance container >>= (λ m.
          maybe_source Source.deserialize repository
          >>= (λ origin. ok (some (record { container = m; origin = origin })))))

  unfoldable pub from_fields :
      Text
      → Result (Result CacheEntry)
      → Option Text × Option Text
      → CacheStore
      → Result (Option CacheEntry) × CacheStore
  from_fields key created (some (c ∷ t), repository) s = (cached (c ∷ t) repository, s)
  from_fields key created (some [], repository) s = save key created s
  from_fields key created (none, repository) s = save key created s

  -- `getAllVersions`
  unfoldable pub get_all_versions :
      Lookups → DependencyRef → CacheStore → Result (Option CacheEntry) × CacheStore
  get_all_versions lookups ref s =
      let key = generate_cache_key ref in
      from_fields key (create_container lookups ref)
        (redis.hmget key serialized_field repository_field s) s
