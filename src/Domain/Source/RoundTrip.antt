-- ===== src/Domain/Source/RoundTrip.antt =====
-- The two texts of a repository source, and what reading them back gives.
use common_build.Common.{◌≡◌, refl, sym, ap, ◌∙◌, ◌≢◌, List, [], ◌∷◌, ◌++◌, arith}
use common_build.Common.Text.{Text, split, join}
use common_build.Common.Text.Split.{IsFree, split-cons, split-one, join-split, split-ne-nil}
use common_build.Common.Result.{ok}
use common_build.Domain.Source.{
  RepositorySource, slash, colon, as_string, serialize, create_from_string, deserialize, from_parts,
  from_fields,
}

-- A source whose store has a name, with no slash in it.
pub record HasPlainId (s : RepositorySource) : Type 0 where
  pub named : s.id ≢ []
  pub no_slash : IsFree b'/' s.id

-- A source that survives `serialize`.
pub record IsSerializable (s : RepositorySource) : Type 0 where
  pub named : s.id ≢ []
  pub located : s.path ≢ []
  pub id_free : IsFree b':' s.id
  pub path_free : IsFree b':' s.path

from_fields_lem :
    (t : Text) (id path : Text) (rest : List Text)
    → id ≢ []
    → path ≢ []
    → from_fields t (id ∷ path ∷ rest) ≡ ok (record { id = id; path = path })
unfolding from_fields
from_fields_lem t id path rest h k = ground arith

from_parts_lem :
    (t id : Text) (rest : List Text)
    → id ≢ []
    → rest ≢ []
    → from_parts t (id ∷ rest) ≡ ok (record { id = id; path = join slash rest })
unfolding from_parts
from_parts_lem t id [] h k = absurd (k refl)
from_parts_lem t id (p ∷ rest) h k = ground arith

from_parts_inv :
    (t : Text) (parts : List Text) {s : RepositorySource}
    → from_parts t parts ≡ ok s
    → join slash parts ≡ as_string s
unfolding from_parts as_string join
from_parts_inv t [] h = cc
from_parts_inv t (id ∷ []) h = cc
from_parts_inv t (id ∷ p ∷ rest) h = ground arith

-- A source whose id and path are not empty and hold no colon is read back from its serialized form.
pub deserialize-serialize :
    (s : RepositorySource) → IsSerializable s → deserialize (serialize s) ≡ ok s
unfolding deserialize serialize
deserialize-serialize s h =
    ap (from_fields (serialize s)) (
      split-cons b':' [] s.id s.path h.id_free
      ∙ ap (λ (t : List Text). s.id ∷ t) (split-one b':' [] s.path h.path_free))
    ∙ from_fields_lem (serialize s) s.id s.path [] h.named h.located

-- Where the id and the path are not empty and hold no colon, what stands behind a second colon is
-- dropped by `deserialize`: the path is cut there.
deserialize_cut :
    (id path rest : Text)
    → IsSerializable (record { id = id; path = path })
    → deserialize (id ++ (colon ++ (path ++ (colon ++ rest))))
      ≡ ok (record { id = id; path = path })
unfolding deserialize
deserialize_cut id path rest h =
    ap (from_fields _) (
      split-cons b':' [] id (path ++ (colon ++ rest)) h.id_free
      ∙ ap (λ (t : List Text). id ∷ t) (split-cons b':' [] path rest h.path_free))
    ∙ from_fields_lem _ id path (split colon rest) h.named h.located

-- A source whose id is not empty and holds no slash is read back from its text, also where its path
-- holds slashes or is empty.
pub create_from_string-as_string :
    (s : RepositorySource) → HasPlainId s → create_from_string (as_string s) ≡ ok s
unfolding create_from_string as_string
create_from_string-as_string s h =
    ap (from_parts (as_string s)) (split-cons b'/' [] s.id s.path h.no_slash)
    ∙ from_parts_lem (as_string s) s.id (split slash s.path) h.named (split-ne-nil slash s.path)
    ∙ ap (λ (p : Text). ok (record { id = s.id; path = p })) (join-split b'/' [] s.path)

-- A text that is read as a source is that source's text.
as_string-create_from_string :
    (t : Text) {s : RepositorySource} → create_from_string t ≡ ok s → as_string s ≡ t
unfolding create_from_string
as_string-create_from_string t h = sym (from_parts_inv t (split slash t) h) ∙ join-split b'/' [] t
