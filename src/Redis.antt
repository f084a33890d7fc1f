-- ===== src/Redis.antt =====
-- The Redis service, which the queue scripts of backend/lua and the services under backend/src
-- call. It is not code of the repository: each command is a parameter, and its hypothesis (the
-- field with `_law` behind its name) says that it acts on the keyspace as the command's
-- documentation describes. `Redis.Laws` proves that what holds of the documented commands holds of
-- every such service. Times to live are not modelled: a key is there until it is deleted.
pub mod Commands
pub mod Laws
pub mod Sets
use common_build.Common.{ℕ, Bool, List, Option, ◌≡◌, refl}
use common_build.Common.Text.{Text}
use common_build.Common.Int.{ℤ}
use Commands
pub use Commands.{Key, ready, active, local, local_active, last_canonical, job_status, Keyspace}

pub record Redis : Type 0 where
  pub get : Key → Keyspace → Option Text
  pub get_law : get ≡ Commands.get
  pub set : Key → Text → Keyspace → Keyspace
  pub set_law : set ≡ Commands.set
  pub del : Key → Keyspace → Keyspace
  pub del_law : del ≡ Commands.del
  pub hget : Key → Text → Keyspace → Option Text
  pub hget_law : hget ≡ Commands.hget
  pub hset : Key → Text → Text → Keyspace → Keyspace
  pub hset_law : hset ≡ Commands.hset
  pub zadd : Key → ℤ → Text → Keyspace → Keyspace
  pub zadd_law : zadd ≡ Commands.zadd
  pub zadd_nx : Key → ℤ → Text → Keyspace → Keyspace
  pub zadd_nx_law : zadd_nx ≡ Commands.zadd_nx
  pub zincrby : Key → ℤ → Text → Keyspace → Keyspace
  pub zincrby_law : zincrby ≡ Commands.zincrby
  pub zrem : Key → Text → Keyspace → Keyspace
  pub zrem_law : zrem ≡ Commands.zrem
  pub zcard : Key → Keyspace → ℕ
  pub zcard_law : zcard ≡ Commands.zcard
  pub zdiff : Key → Key → Keyspace → List Text
  pub zdiff_law : zdiff ≡ Commands.zdiff
  pub zpopmin : Key → Keyspace → Option Text × Keyspace
  pub zpopmin_law : zpopmin ≡ Commands.zpopmin
  pub zremrangebyscore_to_0 : Key → Keyspace → Keyspace
  pub zremrangebyscore_to_0_law : zremrangebyscore_to_0 ≡ Commands.zremrangebyscore_to_0
