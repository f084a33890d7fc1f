-- ===== src/Domain/Refs.antt =====
-- backend/src/domain-model/refs.ts: the refs of a git repository. `MetaConfigBranchRef` extends
-- `BranchRef`; the classes' getters are functions by clauses on the constructors.
pub mod RoundTrip
use common_build.Common.{
  ℕ, Bool, ◌&&◌, ◌||◌, List, [], ◌∷◌, ◌++◌, if◌then◌else◌, true, false, leb, length, Option, none,
  some,
}
use common_build.Common.{◌==◌ as nat_eq}
use common_build.Common.Text.{Text, codes, ◌==◌, split, join}
use common_build.Common.Result.{Result, ok, err, ◌>>=◌}
use common_build.Domain.Source.{slash}

pub data BranchRef : Type 0 where
  branch : Text → BranchRef
  meta_config : BranchRef

pub data EntityRef : Type 0 where
  of_branch : BranchRef → EntityRef
  tag : Text → EntityRef

pub record ShaRef : Type 0 where
  pub sha : Text

pub data Ref : Type 0 where
  entity : EntityRef → Ref
  of_sha : ShaRef → Ref

unfoldable pub branch_name : BranchRef → Text
branch_name (branch name) = name
branch_name meta_config = codes "meta/config"

unfoldable pub name : Ref → Text
name (entity (of_branch b)) = branch_name b
name (entity (tag n)) = n
name (of_sha s) = s.sha

unfoldable pub origin_ref : Ref → Text
origin_ref (entity (of_branch b)) = codes "refs/remotes/origin/" ++ branch_name b
origin_ref (entity (tag n)) = codes "refs/tags/" ++ n
origin_ref (of_sha s) = s.sha

unfoldable pub remote_ref : EntityRef → Text
remote_ref (of_branch (branch n)) = codes "refs/heads/" ++ n
remote_ref (of_branch meta_config) = codes "refs/" ++ branch_name meta_config
remote_ref (tag n) = codes "refs/tags/" ++ n

-- The pattern of the ref-spec that fetches the ref.
unfoldable pub ref_spec : EntityRef → Text
ref_spec (of_branch (branch n)) =
    codes "+refs/heads/" ++ (n ++ (codes ":refs/remotes/origin/" ++ n))
ref_spec (of_branch meta_config) =
    codes "+refs/"
    ++ (branch_name meta_config ++ (codes ":refs/remotes/origin/" ++ branch_name meta_config))
ref_spec (tag n) = codes "+refs/tags/" ++ (n ++ (codes ":refs/tags/" ++ n))

-- `other instanceof BranchRef` holds of both constructors of `BranchRef`.
unfoldable pub equals : Ref → Ref → Bool
equals (entity (of_branch b)) (entity (of_branch c)) = branch_name c == branch_name b
equals (entity (tag n)) (entity (tag m)) = m == n
equals (of_sha s) (of_sha t) = t.sha == s.sha
equals _ _ = false

-- One character of `/[0-9a-f]/i`.
abbrev pub is_hex : ℕ → Bool
is_hex c = leb b'0' c && leb c b'9' || (leb b'a' c && leb c b'f' || leb b'A' c && leb c b'F')

unfoldable pub all_hex : Text → Bool
all_hex [] = true
all_hex (c ∷ s) = is_hex c && all_hex s

-- `/^[0-9a-f]{40}$/i`
unfoldable pub is_sha : Text → Bool
unfolding all_hex
is_sha s = nat_eq (length s) 40 && all_hex s

unfoldable pub create_sha : Text → Result ShaRef
create_sha sha =
    if is_sha sha then ok (record { sha = sha }) else err (codes "Bad sha ref: " ++ sha)

pub record Branch : Type 0 where
  pub ref : BranchRef
  pub sha : ShaRef

unfoldable pub create_branch : Text → Text → Result Branch
create_branch name sha = do s ← create_sha sha; ok (record { ref = branch name; sha = s })

unfoldable pub with_sha : Branch → Text → Result Branch
with_sha b sha = do s ← create_sha sha; ok (record { ref = b.ref; sha = s })

unfoldable pub parse_meta_config : Text → Option BranchRef
parse_meta_config ref = if ref == codes "refs/meta/config" then some meta_config else none

abbrev cannot_decode : Text → Result EntityRef
cannot_decode ref = err (codes "Could not decode " ++ (ref ++ codes " to EntityRef"))

-- The name that `parts.splice(3).join("/")` leaves behind "refs/remotes/<remote>".
abbrev behind_remote : List Text → Text
behind_remote [] = []
behind_remote (_ ∷ rest) = join slash rest

-- `r3 === "config"`
abbrev is_config : List Text → Bool
is_config [] = false
is_config (r3 ∷ _) = r3 == codes "config"

unfoldable pub from_ref_parts : Text → List Text → Result EntityRef
from_ref_parts ref (r1 ∷ r2 ∷ rest) =
    if r1 == codes "refs"
    then if r2 == codes "tags"
      then ok (tag (join slash rest))
      else if r2 == codes "remotes"
      then ok (of_branch (branch (behind_remote rest)))
      else if r2 == codes "heads"
      then ok (of_branch (branch (join slash rest)))
      else if r2 == codes "meta" && is_config rest
      then ok (of_branch meta_config)
      else cannot_decode ref
    else cannot_decode ref
from_ref_parts ref _ = cannot_decode ref

unfoldable pub create_from_remote_ref : Text → Result EntityRef
create_from_remote_ref ref = from_ref_parts ref (split slash ref)

abbrev to_option : Result EntityRef → Option EntityRef
to_option (ok r) = some r
to_option (err _) = none

unfoldable pub try_create_from_remote_ref : Text → Option EntityRef
try_create_from_remote_ref ref = to_option (create_from_remote_ref ref)
