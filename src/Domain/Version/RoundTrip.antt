-- ===== src/Domain/Version/RoundTrip.antt =====
-- A version survives its text.
use common_build.Common.{
  ℕ, ◌≡◌, ◌≢◌, ◌<◌, refl, ap, List, [], ◌∷◌, map, All, true, arith, ltb, length, some,
}
use common_build.Common.Text.{Text, join}
use common_build.Common.Text.Split.{split-join, IsFree}
use common_build.Common.Decimal.{
  print, parse_digits, parse_digits-print, all_digits, all_digits-print, print-ne-nil,
}
use common_build.Common.Result.{ok}
use common_build.Domain.Version.{
  Version, parse, parse_parts, parse_int, leading_digits, create, create_of, as_string, of_numbers,
  dot, number_of,
}

digits-IsFree : (s : Text) → all_digits s ≡ true → IsFree b'.' s
unfolding all_digits
digits-IsFree [] k = tt
digits-IsFree (d ∷ s) k = ground (arith, digits-IsFree s)

leading_digits_lem : (s : Text) → all_digits s ≡ true → leading_digits s ≡ s
unfolding all_digits leading_digits
leading_digits_lem [] k = refl
leading_digits_lem (d ∷ s) k = ground (arith, leading_digits_lem s)

parse_int-print : (n : ℕ) → parse_int (print n) ≡ some n
parse_int-print n =
    rw (leading_digits_lem (print n) (all_digits-print n))
      (go (print n) (print-ne-nil n) (parse_digits-print n))
  where
    go : (s : Text) → s ≢ [] → parse_digits s ≡ n → number_of s ≡ some n
    go [] h k = absurd (h refl)
    go (c ∷ s) h k = ap some k

parse_parts-print : (ns : List ℕ) → parse_parts (map print ns) ≡ some ns
unfolding parse_parts
parse_parts-print [] = refl
parse_parts-print (n ∷ ns) = rw (parse_int-print n, parse_parts-print ns) refl

prints-IsFree : (ns : List ℕ) → All (IsFree b'.') (map print ns)
prints-IsFree [] = tt
prints-IsFree (n ∷ ns) = (digits-IsFree (print n) (all_digits-print n), prints-IsFree ns)

parse_lem :
    (ns : List ℕ)
    → 1 < length ns
    → parse (join dot (map print ns)) ≡ some (record { segments = ns })
unfolding parse
parse_lem [] h = absurd (omega arith)
parse_lem (a ∷ []) h = absurd (omega arith)
parse_lem (a ∷ b ∷ ns) h =
    let k : ltb 1 (length (map print (a ∷ b ∷ ns))) ≡ true = ground arith in
    rw (split-join b'.' [] (print a) (map print (b ∷ ns)) (prints-IsFree (a ∷ b ∷ ns)))
      (rw k (ap of_numbers (parse_parts-print (a ∷ b ∷ ns))))

-- A version with at least two segments is read back from its text, by `parse` and by `create`.
pub create-as_string :
    (v : Version)
    → 1 < length v.segments
    → (parse (as_string v) ≡ some v) × (create (as_string v) ≡ ok v)
unfolding create create_of as_string
create-as_string v h =
    let e : parse (as_string v) ≡ some v = parse_lem v.segments h in (e, rw e refl)
