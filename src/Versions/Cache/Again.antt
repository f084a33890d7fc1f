-- ===== src/Versions/Cache/Again.antt =====
-- What the cache of lookups answers the second time, and after an invalidation.
use mathlib.Core.Path.{contract', subst, ap, ◌∙◌, sym}
use common_build.Common.{◌≡◌, refl, [], ◌∷◌, Option, none, some}
use common_build.Common.Text.{Text, eq-true, ◌==◌, split}
use common_build.Common.Result.{Result, ok, err}
use common_build.Domain.Source.{RepositorySource}
use common_build.Domain.Source
use common_build.Domain.Source.RoundTrip.{IsSerializable, deserialize-serialize}
use common_build.Domain.DependencyRef.{DependencyRef}
use common_build.Versions.{ModelComposite}
use common_build.Versions.Cache.{
  CacheStore, CacheRedis, ContainerCodec, CacheEntry, Lookups, set_field, read_fields, write_fields,
  set_expiry, delete_key, delete_keys, serialized_field, repository_field, generate_cache_key,
  cache_keys, invalidate, maybe_source, save, cached, from_fields, get_all_versions,
  create_container,
}

abbrev pub documented : CacheRedis
documented = record {
  hmget = read_fields;
  hmget_law = refl;
  hmset = write_fields;
  hmset_law = refl;
  expire = set_expiry;
  expire_law = refl;
  del = delete_keys;
  del_law = refl;
}

documented-path : (r : CacheRedis) → documented ≡ r
documented-path r = λ i. record {
  hmget = (contract' r.hmget_law i).0;
  hmget_law = (contract' r.hmget_law i).1;
  hmset = (contract' r.hmset_law i).0;
  hmset_law = (contract' r.hmset_law i).1;
  expire = (contract' r.expire_law i).0;
  expire_law = (contract' r.expire_law i).1;
  del = (contract' r.del_law i).0;
  del_law = (contract' r.del_law i).1;
}

of_documented {ℓ} : (P : CacheRedis → Type ℓ) → P documented → (r : CacheRedis) → P r
of_documented P h r = subst P (documented-path r) h

-- The codec reads the container back from its text, an object of JSON, and the origin's id and path
-- are not empty and hold no colon.
abbrev pub IsStorableOrigin : Option RepositorySource → Type 0
IsStorableOrigin none = Unit
IsStorableOrigin (some source) = IsSerializable source

pub record IsReadable (codec : ContainerCodec) (entry : CacheEntry) : Type 0 where
  pub body : Text
  pub is_object : codec.to_json entry.container ≡ b'{' ∷ body
  pub is_read : codec.to_instance (codec.to_json entry.container) ≡ ok entry.container
  pub storable : IsStorableOrigin entry.origin

abbrev pub IsReadableResult : ContainerCodec → Result CacheEntry → Type 0
IsReadableResult codec (ok entry) = IsReadable codec entry
IsReadableResult codec (err _) = Unit

-- A lookup that fails is answered by `undefined`.
abbrev pub to_option : Result CacheEntry → Option CacheEntry
to_option (ok entry) = some entry
to_option (err _) = none

-- What a lookup answers that the cache knows nothing of
abbrev pub answer_of : Result (Result CacheEntry) → Result (Option CacheEntry)
answer_of (err thrown) = err thrown
answer_of (ok created) = ok (to_option created)

abbrev origin_text : Option RepositorySource → Option Text
origin_text none = none
origin_text (some source) = some (Source.serialize source)

save-answer :
    (codec : ContainerCodec) (key : Text) (created : Result (Result CacheEntry)) (s : CacheStore)
    → (save documented codec key created s).0 ≡ answer_of created
unfolding save
save-answer codec key (err thrown) s = refl
save-answer codec key (ok (ok entry)) s = refl
save-answer codec key (ok (err m)) s = refl

read-written :
    (codec : ContainerCodec) (key : Text) (m : ModelComposite) (origin : Option RepositorySource)
    (s : CacheStore)
    → s.hashes key repository_field ≡ none
    → read_fields key serialized_field repository_field
        (save documented codec key (ok (ok (record { container = m; origin = origin }))) s).1
      ≡ (some (codec.to_json m), origin_text origin)
unfolding save read_fields write_fields set_field set_expiry ◌==◌
read-written codec key m none s h = rw (eq-true key) (rw h refl)
read-written codec key m (some source) s h = rw (eq-true key) refl

read_source :
    (t : Text) (source : RepositorySource)
    → Source.deserialize t ≡ ok source
    → maybe_source Source.deserialize (some t) ≡ ok (some source)
unfolding Source.deserialize Source.from_fields split
read_source [] source h = cc
read_source (c ∷ t) source h = rw h refl

read_origin :
    (origin : Option RepositorySource)
    → IsStorableOrigin origin
    → maybe_source Source.deserialize (origin_text origin) ≡ ok origin
read_origin none h = refl
read_origin (some source) h =
    read_source (Source.serialize source) source (deserialize-serialize source h)

read_json :
    (codec : ContainerCodec) (entry : CacheEntry) (key body : Text)
    (created : Result (Result CacheEntry)) (s : CacheStore)
    → codec.to_instance (b'{' ∷ body) ≡ ok entry.container
    → IsStorableOrigin entry.origin
    → from_fields documented codec key created (some (b'{' ∷ body), origin_text entry.origin) s
      ≡ (ok (some entry), s)
unfolding from_fields cached ◌==◌
read_json codec entry key body created s h storable =
    rw h (rw (read_origin entry.origin storable) refl)

cached-read :
    (codec : ContainerCodec) (entry : CacheEntry) (key : Text)
    (created : Result (Result CacheEntry)) (s : CacheStore)
    → IsReadable codec entry
    → from_fields documented codec key created
        (some (codec.to_json entry.container), origin_text entry.origin)
        s
      ≡ (ok (some entry), s)
cached-read codec entry key created s h = rw h.is_object (
    read_json codec entry key h.body created s (ap codec.to_instance (sym h.is_object) ∙ h.is_read)
      h.storable)

written_invalid :
    (codec : ContainerCodec) (key m : Text) (created : Result (Result CacheEntry)) (s : CacheStore)
    → from_fields documented codec key created
        (read_fields key serialized_field repository_field
          (save documented codec key (ok (err m)) s).1)
        (save documented codec key (ok (err m)) s).1
      ≡ (ok none, (save documented codec key (ok (err m)) s).1)
unfolding from_fields cached save read_fields write_fields set_field set_expiry ◌==◌
written_invalid codec key m created s = rw (eq-true key) refl

invalidated :
    (key : Text) (s : CacheStore)
    → read_fields key serialized_field repository_field (delete_keys (key ∷ []) s) ≡ (none, none)
unfolding read_fields delete_keys delete_key
invalidated key s = rw (eq-true key) refl

looked_up :
    (codec : ContainerCodec) (lookups : Lookups) (ref : DependencyRef) (s : CacheStore)
    (created : Result CacheEntry)
    → s.hashes (generate_cache_key ref) serialized_field ≡ none
    → create_container lookups ref ≡ ok created
    → get_all_versions documented codec lookups ref s
      ≡ save documented codec (generate_cache_key ref) (ok created) s
unfolding get_all_versions read_fields from_fields
looked_up codec lookups ref s created h c = rw h (rw c refl)

from_stored :
    (codec : ContainerCodec) (key : Text) (s : CacheStore) (created : Result CacheEntry)
    (again : Result (Result CacheEntry))
    → s.hashes key repository_field ≡ none
    → IsReadableResult codec created
    → from_fields documented codec key again
        (read_fields key serialized_field repository_field
          (save documented codec key (ok created) s).1)
        (save documented codec key (ok created) s).1
      ≡ save documented codec key (ok created) s
unfolding save
from_stored codec key s (err m) again h r = written_invalid codec key m again s
from_stored codec key s (ok entry) again h r =
    let written = (save documented codec key (ok (ok entry)) s).1 in
    ap (λ f. from_fields documented codec key again f written)
      (read-written codec key entry.container entry.origin s h)
    ∙ cached-read codec entry key again written r

asked_again :
    (codec : ContainerCodec) (later : Lookups) (ref : DependencyRef) (s : CacheStore)
    → (get_all_versions documented codec later ref (invalidate documented (ref ∷ []) s)).0
      ≡ answer_of (create_container later ref)
unfolding get_all_versions invalidate cache_keys from_fields
asked_again codec later ref s =
    let key = generate_cache_key ref in
    let created = create_container later ref in
    let cleared = delete_keys (key ∷ []) s in
    ap (λ f. (from_fields documented codec key created f cleared).0) (invalidated key s)
    ∙ save-answer codec key created cleared

documented_again :
    (codec : ContainerCodec) (lookups later : Lookups) (ref : DependencyRef) (s : CacheStore)
    (created : Result CacheEntry)
    → s.hashes (generate_cache_key ref) serialized_field ≡ none
    → s.hashes (generate_cache_key ref) repository_field ≡ none
    → create_container lookups ref ≡ ok created
    → IsReadableResult codec created
    → ((get_all_versions documented codec lookups ref s).0 ≡ ok (to_option created))
      × (get_all_versions documented codec later ref
            (get_all_versions documented codec lookups ref s).1
          ≡ get_all_versions documented codec lookups ref s)
      × ((get_all_versions documented codec later ref (
            invalidate documented (ref ∷ []) (get_all_versions documented codec lookups ref s).1)).0
          ≡ answer_of (create_container later ref))
unfolding get_all_versions
documented_again codec lookups later ref s created h g c r =
    let key = generate_cache_key ref in
    let first = looked_up codec lookups ref s created h c in
    (
      ap (λ p. p.0) first ∙ save-answer codec key (ok created) s,
      rw first (from_stored codec key s created (create_container later ref) g r),
      asked_again codec later ref (get_all_versions documented codec lookups ref s).1,
    )

-- A lookup at a key that the cache does not hold answers the versions that were found, or
-- `undefined` where the lookup failed; the next one gives the same answer, whatever the services
-- would answer by then, and changes nothing; and after an invalidation of the dependency the
-- services are asked again. The lookup throws nothing outside its promise, and what was found can
-- be written and read back.
pub get_all_versions-again :
    (redis : CacheRedis) (codec : ContainerCodec) (lookups later : Lookups) (ref : DependencyRef)
    (s : CacheStore) (created : Result CacheEntry)
    → s.hashes (generate_cache_key ref) serialized_field ≡ none
    → s.hashes (generate_cache_key ref) repository_field ≡ none
    → create_container lookups ref ≡ ok created
    → IsReadableResult codec created
    → ((get_all_versions redis codec lookups ref s).0 ≡ ok (to_option created))
      × (get_all_versions redis codec later ref (get_all_versions redis codec lookups ref s).1
          ≡ get_all_versions redis codec lookups ref s)
      × ((get_all_versions redis codec later ref
            (invalidate redis (ref ∷ []) (get_all_versions redis codec lookups ref s).1)).0
          ≡ answer_of (create_container later ref))
get_all_versions-again redis codec lookups later ref s created =
    of_documented
      (λ redis.
        s.hashes (generate_cache_key ref) serialized_field ≡ none
        → s.hashes (generate_cache_key ref) repository_field ≡ none
        → create_container lookups ref ≡ ok created
        → IsReadableResult codec created
        → ((get_all_versions redis codec lookups ref s).0 ≡ ok (to_option created))
          × (get_all_versions redis codec later ref (get_all_versions redis codec lookups ref s).1
              ≡ get_all_versions redis codec lookups ref s)
          × ((get_all_versions redis codec later ref
                (invalidate redis (ref ∷ []) (get_all_versions redis codec lookups ref s).1)).0
              ≡ answer_of (create_container later ref)))
      (documented_again codec lookups later ref s created) redis
