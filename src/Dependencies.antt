-- ===== src/Dependencies.antt =====
-- backend/src/repositories/dependency-manager/dependency-storage-impl.ts and
-- backend/src/system/queue/active-repositories.ts: which repositories depend on what, and which are
-- active, kept in sets of Redis. The commands on sets are parameters with their documented effect as
-- hypotheses.
pub mod Sets
pub mod Laws
pub mod Index
pub mod Update
mod Examples
use common_build.Common.{
  ℕ, Bool, not, List, [], ◌∷◌, ◌++◌, map, Option, none, some, if◌then◌else◌, ◌≡◌,
}
use common_build.Common.Text.{Text}
use common_build.Common.Result.{Result}
use common_build.Lodash.{Lodash}
use common_build.Domain.Source.{RepositorySource}
use common_build.Domain.Source
use common_build.Domain.DependencyRef.{DependencyRef, serialize}
use Sets
pub use Sets.{SetKey, of_source, of_ref, active_repository_key, AllSets}

pub record RedisSets : Type 0 where
  pub sadd : SetKey → List Text → AllSets → AllSets
  pub sadd_law : sadd ≡ Sets.sadd
  pub srem : SetKey → List Text → AllSets → AllSets
  pub srem_law : srem ≡ Sets.srem
  pub smembers : SetKey → AllSets → List Text
  pub smembers_law : smembers ≡ Sets.smembers
  pub sismember : SetKey → Text → AllSets → Bool
  pub sismember_law : sismember ≡ Sets.sismember
  pub del : SetKey → AllSets → AllSets
  pub del_law : del ≡ Sets.del

module _ (redis : RedisSets) where
  -- `addActiveRepositories`
  unfoldable add_active_repositories : List RepositorySource → AllSets → AllSets
  add_active_repositories [] s = s
  add_active_repositories (source ∷ sources) s =
      redis.sadd active_repository_key (map Source.serialize (source ∷ sources)) s

  -- `removeActiveRepositories`
  unfoldable remove_active_repositories : List RepositorySource → AllSets → AllSets
  remove_active_repositories [] s = s
  remove_active_repositories (source ∷ sources) s =
      redis.srem active_repository_key (map Source.serialize (source ∷ sources)) s

  -- `activeRepositories`
  unfoldable active_repositories : AllSets → Result (List RepositorySource)
  active_repositories s = Source.deserialize_all (redis.smembers active_repository_key s)

  -- `isActive`
  unfoldable is_active : RepositorySource → AllSets → Bool
  is_active source s = redis.sismember active_repository_key (Source.serialize source) s

  -- `toAdd.forEach` and `toRemove.forEach`
  unfoldable pub add_listener : Text → List Text → AllSets → AllSets
  add_listener source [] s = s
  add_listener source (ref ∷ refs) s =
      add_listener source refs (redis.sadd (of_ref ref) (source ∷ []) s)

  unfoldable pub remove_listener : Text → List Text → AllSets → AllSets
  remove_listener source [] s = s
  remove_listener source (ref ∷ refs) s =
      remove_listener source refs (redis.srem (of_ref ref) (source ∷ []) s)

  abbrev pub add_new : SetKey → List Text → AllSets → AllSets
  add_new k [] s = s
  add_new k (t ∷ ts) s = redis.sadd k (t ∷ ts) s

  -- `lookup`: the members of the sets of all refs
  unfoldable members_of : List Text → AllSets → List Text
  members_of [] s = []
  members_of (ref ∷ refs) s = redis.smembers (of_ref ref) s ++ members_of refs s

  module _ (lodash : Lodash) where
    -- `lookup`
    unfoldable lookup : List DependencyRef → AllSets → Result (List RepositorySource)
    lookup refs s = Source.deserialize_all (lodash.uniq (members_of (map serialize refs) s))

    -- `update`, on the serialized source and refs
    unfoldable pub update_serialized : Text → List Text → AllSets → AllSets
    update_serialized source new s =
        let existing = redis.smembers (of_source source) s in
        let to_add = lodash.difference new existing in
        let to_remove = lodash.difference existing new in
        let s₁ = redis.del (of_source source) s in
        let s₂ = add_new (of_source source) new s₁ in
        let s₃ = add_listener source to_add s₂ in remove_listener source to_remove s₃

    -- `update`; the key of a source is a prefix and its serialized form.
    unfoldable update : RepositorySource → List DependencyRef → AllSets → AllSets
    update source refs s = update_serialized (Source.serialize source) (map serialize refs) s
