-- ===== src/Domain/Version.antt =====
-- backend/src/domain-model/version.ts: a version is a list of segments. A segment is what
-- `parseInt` gave, a number that is not negative (a sign in a segment is not modelled).
pub mod Order
pub mod RoundTrip
use common_build.Common.{
  Option, none, some, map, ◌++◌, ℕ, suc, zero, List, [], ◌∷◌, ◌++◌, if◌then◌else◌, length, leb, ltb,
  ◌-◌, ◌==◌, Option, none, some, ◌≤◌, Bool,
}
use common_build.Common.Text.{Text, codes, split, join}
use common_build.Common.Decimal.{print, parse_digits, is_digit}
use common_build.Common.Result.{Result, ok, err}

pub record Version : Type 0 where
  pub segments : List ℕ

-- `assert(segments.length > 1)`, whose message speaks of no segments.
unfoldable pub from_segments : List ℕ → Result Version
from_segments segments =
    if ltb 1 (length segments)
    then ok (record { segments = segments })
    else err (codes "A version with zero segments [] is illegal")

-- `segments[0]`, which is there in every version that `fromSegments` returns
unfoldable pub major : Version → Option ℕ
major v = elim v.segments [ [] ↦ none | s ∷ _ ↦ some s ]

-- The sign of a number, which is all that callers of `compare` read.
pub data Sign : Type 0 where
  negative same positive : Sign

abbrev pub sign_of_diff : ℕ → ℕ → Sign
sign_of_diff a b = if a == b then same else if ltb a b then negative else positive

-- The loop of `compare` over the positions that both have, then the lengths.
unfoldable pub compare_segments : List ℕ → List ℕ → Sign
compare_segments [] [] = same
compare_segments [] (_ ∷ _) = negative
compare_segments (_ ∷ _) [] = positive
compare_segments (x ∷ xs) (y ∷ ys) =
    let rest = compare_segments xs ys in if x == y then rest else sign_of_diff x y

unfoldable pub compare : Version → Version → Sign
compare this other = compare_segments this.segments other.segments

-- `parseInt` of a text that starts with a digit or is not numeric: the digits at its start.
unfoldable pub leading_digits : Text → Text
leading_digits [] = []
leading_digits (c ∷ s) = let rest = leading_digits s in if is_digit c then c ∷ rest else []

abbrev number_of : Text → Option ℕ
number_of [] = none
number_of (c ∷ s) = some (parse_digits (c ∷ s))

abbrev pub parse_int : Text → Option ℕ
parse_int s = number_of (leading_digits s)

abbrev cons_number : Option ℕ → Option (List ℕ) → Option (List ℕ)
cons_number (some n) (some ns) = some (n ∷ ns)
cons_number _ _ = none

unfoldable pub parse_parts : List Text → Option (List ℕ)
parse_parts [] = some []
parse_parts (p ∷ ps) = cons_number (parse_int p) (parse_parts ps)

abbrev pub of_numbers : Option (List ℕ) → Option Version
of_numbers none = none
of_numbers (some segments) = some (record { segments = segments })

abbrev pub dot : Text
dot = b'.' ∷ []

-- Every error in `parse` is caught, and gives `null`.
unfoldable pub parse : Text → Option Version
parse version =
    let parts = split dot version in
    if ltb 1 (length parts) then of_numbers (parse_parts parts) else none

unfoldable pub create_of : Text → Option Version → Result Version
create_of version none = err (codes "Could not parse " ++ (version ++ codes " to a valid version"))
create_of version (some v) = ok v

unfoldable pub create : Text → Result Version
create version = create_of version (parse version)

unfoldable pub as_string : Version → Text
as_string v = join dot (map print v.segments)
