-- ===== src/Dependencies/Sets.antt =====
-- The documented effect of the Redis commands on sets. A set is the list of its members.
use common_build.Common.{Bool, not, true, false, List, [], ◌∷◌, keep, if◌then◌else◌}
use common_build.Common.Text.{Text, ◌==◌}
use common_build.Lodash.Functions.{includes}

-- The keys of the sets: `dependencies-source:<source>`, `dependencies-refs:<ref>` and
-- `active-directories`.
pub data SetKey : Type 0 where
  of_source of_ref : Text → SetKey
  active_repository_key : SetKey

abbrev pub same_set : SetKey → SetKey → Bool
same_set (of_source s) (of_source t) = s == t
same_set (of_ref s) (of_ref t) = s == t
same_set active_repository_key active_repository_key = true
same_set _ _ = false

abbrev pub AllSets : Type 0
AllSets = SetKey → List Text

unfoldable pub put_set : SetKey → List Text → AllSets → AllSets
put_set k l s j = if same_set k j then l else s j

unfoldable pub add_members : List Text → List Text → List Text
add_members [] l = l
add_members (m ∷ ms) l = add_members ms (if includes l m then l else m ∷ l)

unfoldable pub sadd : SetKey → List Text → AllSets → AllSets
sadd k ms s = put_set k (add_members ms (s k)) s

unfoldable pub srem : SetKey → List Text → AllSets → AllSets
srem k ms s = put_set k (keep (λ m. not (includes ms m)) (s k)) s

unfoldable pub smembers : SetKey → AllSets → List Text
smembers k s = s k

unfoldable pub sismember : SetKey → Text → AllSets → Bool
sismember k m s = includes (s k) m

unfoldable pub del : SetKey → AllSets → AllSets
del k s = put_set k [] s
