-- ===== src/Redis/Commands.antt =====
-- The documented effect of the Redis commands that the program uses, on a keyspace. A sorted set
-- is the list of its members with their scores, by score and then by the members' text.
use common_build.Common.{
  ℕ, Bool, true, false, ◌&&◌, ◌||◌, List, [], ◌∷◌, Option, none, some, if◌then◌else◌, length, ltb,
}
use common_build.Common.{◌==◌ as nat_eq}
use common_build.Common.Text.{Text, ◌==◌}
use common_build.Common.Int.{ℤ, pos, ◌+ℤ◌, le_int, lt_int}

-- The keys of the queues. Each stands for the text that the program builds, which are distinct,
-- as the names that they are built from hold no colon: `queue:ready`, `queue:active`, the local
-- queue's own key, that key with `:active` and with `:canonical:<id>`, and `queue:status:<job>`.
pub data Key : Type 0 where
  ready active : Key
  local local_active : Text → Key
  last_canonical : Text → Text → Key
  job_status : Text → Key

unfoldable pub same_key : Key → Key → Bool
same_key ready ready = true
same_key active active = true
same_key (local q) (local p) = q == p
same_key (local_active q) (local_active p) = q == p
same_key (last_canonical q c) (last_canonical p d) = q == p && c == d
same_key (job_status j) (job_status k) = j == k
same_key _ _ = false

pub record Keyspace : Type 0 where
  pub strings : Key → Option Text
  pub hashes : Key → Text → Option Text
  pub zsets : Key → List (Text × ℤ)

abbrev pub empty : Keyspace
empty = record { strings = λ _. none; hashes = λ _ _. none; zsets = λ _. [] }

unfoldable pub put {ℓ} : {V : Type ℓ} → (Key → V) → Key → V → Key → V
put f k v j = if same_key k j then v else f j

-- Sorted sets

unfoldable pub text_le : Text → Text → Bool
text_le [] t = true
text_le (x ∷ s) [] = false
text_le (x ∷ s) (y ∷ t) = let rest = text_le s t in if nat_eq x y then rest else ltb x y

abbrev pub before : Text × ℤ → Text × ℤ → Bool
before (m, s) (n, t) = lt_int s t || (le_int s t && text_le m n)

unfoldable pub zscore : Text → List (Text × ℤ) → Option ℤ
zscore m [] = none
zscore m ((n, s) ∷ l) = if n == m then some s else zscore m l

unfoldable pub zinsert : Text × ℤ → List (Text × ℤ) → List (Text × ℤ)
zinsert e [] = e ∷ []
zinsert e (f ∷ l) = if before e f then e ∷ f ∷ l else f ∷ zinsert e l

unfoldable pub zremove : Text → List (Text × ℤ) → List (Text × ℤ)
zremove m [] = []
zremove m ((n, s) ∷ l) = let rest = zremove m l in if n == m then rest else (n, s) ∷ rest

unfoldable pub positive : List (Text × ℤ) → List (Text × ℤ)
positive [] = []
positive ((n, s) ∷ l) = let rest = positive l in if le_int s (pos 0) then rest else (n, s) ∷ rest

abbrev pub is_some {ℓ} : {A : Type ℓ} → Option A → Bool
is_some none = false
is_some (some _) = true

abbrev pub score_or_0 : Option ℤ → ℤ
score_or_0 none = pos 0
score_or_0 (some s) = s

-- The members of the first list that are not in the second, in order.
unfoldable pub zdifference : List (Text × ℤ) → List (Text × ℤ) → List Text
zdifference [] r = []
zdifference ((n, s) ∷ l) r =
    let rest = zdifference l r in if is_some (zscore n r) then rest else n ∷ rest

-- Commands

unfoldable pub get : Key → Keyspace → Option Text
get k s = s.strings k

unfoldable pub set : Key → Text → Keyspace → Keyspace
set k v s = record s { strings = put s.strings k (some v) }

unfoldable pub del : Key → Keyspace → Keyspace
del k s = record {
  strings = put s.strings k none;
  hashes = put s.hashes k (λ _. none);
  zsets = put s.zsets k [];
}

unfoldable pub hget : Key → Text → Keyspace → Option Text
hget k field s = s.hashes k field

unfoldable pub hset : Key → Text → Text → Keyspace → Keyspace
hset k field v s = record s {
  hashes = put s.hashes k (λ f. if field == f then some v else s.hashes k f);
}

unfoldable pub zput : Key → List (Text × ℤ) → Keyspace → Keyspace
zput k l s = record s { zsets = put s.zsets k l }

unfoldable pub zadd : Key → ℤ → Text → Keyspace → Keyspace
zadd k score m s = zput k (zinsert (m, score) (zremove m (s.zsets k))) s

unfoldable pub zadd_nx : Key → ℤ → Text → Keyspace → Keyspace
zadd_nx k score m s =
    if is_some (zscore m (s.zsets k)) then s else zput k (zinsert (m, score) (s.zsets k)) s

unfoldable pub zincrby : Key → ℤ → Text → Keyspace → Keyspace
zincrby k delta m s = zadd k (score_or_0 (zscore m (s.zsets k)) +ℤ delta) m s

unfoldable pub zrem : Key → Text → Keyspace → Keyspace
zrem k m s = zput k (zremove m (s.zsets k)) s

unfoldable pub zcard : Key → Keyspace → ℕ
zcard k s = length (s.zsets k)

unfoldable pub zdiff : Key → Key → Keyspace → List Text
zdiff k j s = zdifference (s.zsets k) (s.zsets j)

unfoldable pub zpop : List (Text × ℤ) → Option Text × List (Text × ℤ)
zpop [] = (none, [])
zpop ((m, _) ∷ l) = (some m, l)

unfoldable pub zpopmin : Key → Keyspace → Option Text × Keyspace
zpopmin k s = ((zpop (s.zsets k)).0, zput k (zpop (s.zsets k)).1 s)

-- `ZREMRANGEBYSCORE key -inf 0`
unfoldable pub zremrangebyscore_to_0 : Key → Keyspace → Keyspace
zremrangebyscore_to_0 k s = zput k (positive (s.zsets k)) s
