-- ===== src/Tasks/Redis.antt =====
-- The Redis service as the task queue calls it: each command is a parameter with its documented
-- effect as hypothesis. What holds of the documented commands holds of every such service.
use mathlib.Core.Path.{contract', subst}
use common_build.Common.{ℕ, Bool, List, ◌≡◌, refl}
use common_build.Common.Text.{Text}
use common_build.Common.Int.{ℤ}
use common_build.Tasks.Commands
use common_build.Tasks.Commands.{TaskKey, TaskStore}

pub record TaskRedis : Type 0 where
  pub zadd : TaskKey → ℤ → Text → TaskStore → TaskStore
  pub zadd_law : zadd ≡ Commands.zadd
  pub zrem : TaskKey → Text → TaskStore → TaskStore
  pub zrem_law : zrem ≡ Commands.zrem
  pub zrange_by_score : TaskKey → ℤ → ℤ → ℕ → TaskStore → List Text
  pub zrange_by_score_law : zrange_by_score ≡ Commands.zrange_by_score
  pub zrange : TaskKey → ℕ → TaskStore → List Text
  pub zrange_law : zrange ≡ Commands.zrange
  pub del : TaskKey → TaskStore → TaskStore
  pub del_law : del ≡ Commands.del
  pub set_nx : TaskKey → Text → TaskStore → Bool × TaskStore
  pub set_nx_law : set_nx ≡ Commands.set_nx

abbrev pub documented : TaskRedis
documented = record {
  zadd = Commands.zadd;
  zadd_law = refl;
  zrem = Commands.zrem;
  zrem_law = refl;
  zrange_by_score = Commands.zrange_by_score;
  zrange_by_score_law = refl;
  zrange = Commands.zrange;
  zrange_law = refl;
  del = Commands.del;
  del_law = refl;
  set_nx = Commands.set_nx;
  set_nx_law = refl;
}

documented-path : (r : TaskRedis) → documented ≡ r
documented-path r = λ i. record {
  zadd = (contract' r.zadd_law i).0;
  zadd_law = (contract' r.zadd_law i).1;
  zrem = (contract' r.zrem_law i).0;
  zrem_law = (contract' r.zrem_law i).1;
  zrange_by_score = (contract' r.zrange_by_score_law i).0;
  zrange_by_score_law = (contract' r.zrange_by_score_law i).1;
  zrange = (contract' r.zrange_law i).0;
  zrange_law = (contract' r.zrange_law i).1;
  del = (contract' r.del_law i).0;
  del_law = (contract' r.del_law i).1;
  set_nx = (contract' r.set_nx_law i).0;
  set_nx_law = (contract' r.set_nx_law i).1;
}

pub of_documented {ℓ} : (P : TaskRedis → Type ℓ) → P documented → (r : TaskRedis) → P r
of_documented P h r = subst P (documented-path r) h
