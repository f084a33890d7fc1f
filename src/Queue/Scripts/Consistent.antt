-- ===== src/Queue/Scripts/Consistent.antt =====
-- When the keys of the queues agree with one another.
use common_build.Common.{ℕ, zero, suc, Option, none, some, ◌≡◌, length}
use common_build.Common.Text.{Text}
use common_build.Common.Int.{ℤ, pos}
use common_build.Redis.{Keyspace, ready, active, local, local_active, last_canonical}
use common_build.Redis.Commands.{zscore, is_some}
use common_build.Redis.Sets.{IsUnique, IsSorted, strip}
use common_build.Queue.Scripts.{canonical_field, serialized_field}

-- The score that counts `n` pending refs; with none pending there is no score.
abbrev pub score_of : ℕ → Option ℤ
score_of zero = none
score_of (suc n) = some (pos (suc n))

-- Between two commands of a script a count may stand at 0.
pub record IsNearlyConsistent (s : Keyspace) : Type 0 where
  pub counts : (q : Text) → strip (zscore q (s.zsets ready)) ≡ score_of (length (s.zsets (local q)))
  pub pending :
      (q c : Text)
      → is_some (zscore c (s.zsets (local q))) ≡ is_some (s.strings (last_canonical q c))
  pub running :
      (q : Text)
      → is_some (zscore q (s.zsets active)) ≡ is_some (s.hashes (local_active q) serialized_field)
  pub named :
      (q : Text)
      → is_some (s.hashes (local_active q) canonical_field)
        ≡ is_some (s.hashes (local_active q) serialized_field)
  pub local_unique : (q : Text) → IsUnique (s.zsets (local q))
  pub local_sorted : (q : Text) → IsSorted (s.zsets (local q))
  pub ready_unique : IsUnique (s.zsets ready)

-- The ready queue counts the refs that wait in each local queue, each such ref has its latest
-- text, and a local queue is in the active queue exactly if its running job is noted.
pub record IsConsistent (s : Keyspace) : Type 0 where
  pub nearly : IsNearlyConsistent s
  pub no_zero : (q : Text) → strip (zscore q (s.zsets ready)) ≡ zscore q (s.zsets ready)
