-- ===== src/Domain/Source.antt =====
-- backend/src/domain-model/repository-model/repository-source.ts: a repository and its texts.
pub mod RoundTrip
use common_build.Common.{ℕ, Bool, ◌&&◌, List, [], ◌∷◌, ◌++◌, if◌then◌else◌, any, true, false, map}
use common_build.Common.Text.{Text, codes, ◌==◌, split, join}
use common_build.Common.Result.{Result, ok, err, ◌>>=◌}

pub record RepositorySource : Type 0 where
  pub id : Text
  pub path : Text

abbrev pub slash : Text
slash = b'/' ∷ []

abbrev pub colon : Text
colon = b':' ∷ []

unfoldable pub to_string : RepositorySource → Text
to_string s = codes "source:" ++ (s.id ++ (slash ++ s.path))

unfoldable pub as_string : RepositorySource → Text
as_string s = s.id ++ (slash ++ s.path)

unfoldable pub serialize : RepositorySource → Text
serialize s = s.id ++ (colon ++ s.path)

unfoldable pub create_from_object : Text → Text → RepositorySource
create_from_object id path = record { id = id; path = path }

-- The test `if (s)` of the language: an empty text is false.
abbrev pub is_truthy : Text → Bool
is_truthy [] = false
is_truthy (_ ∷ _) = true

-- `const [id, ...rest] = str.split("/")`
unfoldable pub from_parts : Text → List Text → Result RepositorySource
from_parts str (id ∷ p ∷ rest) =
    if is_truthy id
    then ok (record { id = id; path = join slash (p ∷ rest) })
    else err (codes "Could not parse " ++ (str ++ codes " to RepositorySource"))
from_parts str _ = err (codes "Could not parse " ++ (str ++ codes " to RepositorySource"))

unfoldable pub create_from_string : Text → Result RepositorySource
create_from_string str = from_parts str (split slash str)

-- `const [id, path] = serialized.split(":")`: what stands behind a second colon is dropped.
unfoldable pub from_fields : Text → List Text → Result RepositorySource
from_fields serialized (id ∷ path ∷ _) =
    if is_truthy id && is_truthy path
    then ok (record { id = id; path = path })
    else err (codes "Could not parse RepositorySource:" ++ serialized)
from_fields serialized _ = err (codes "Could not parse RepositorySource:" ++ serialized)

unfoldable pub deserialize : Text → Result RepositorySource
deserialize serialized = from_fields serialized (split colon serialized)

-- The reduction of `unique`: a `Set` keeps the order in which its values were added.
unfoldable pub collect : List Text → List RepositorySource → List Text
collect acc [] = acc
collect acc (next ∷ sources) =
    let serialized = serialize next in
    collect (if any (λ t. t == serialized) acc then acc else acc ++ serialized ∷ []) sources

unfoldable pub deserialize_all : List Text → Result (List RepositorySource)
deserialize_all [] = ok []
deserialize_all (t ∷ ts) = do s ← deserialize t; rest ← deserialize_all ts; ok (s ∷ rest)

unfoldable pub unique : List RepositorySource → Result (List RepositorySource)
unique sources = deserialize_all (collect [] sources)

unfoldable pub equals : RepositorySource → RepositorySource → Bool
equals this other = this.id == other.id && this.path == other.path
