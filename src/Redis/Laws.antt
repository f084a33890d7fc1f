-- ===== src/Redis/Laws.antt =====
-- The documented commands are a Redis service, and what holds of them holds of every service.
use mathlib.Core.Path.{contract', subst}
use common_build.Common.{◌≡◌, refl}
use common_build.Redis.{Redis}
use common_build.Redis.Commands

abbrev pub documented : Redis
documented = record {
  get = Commands.get;
  get_law = refl;
  set = Commands.set;
  set_law = refl;
  del = Commands.del;
  del_law = refl;
  hget = Commands.hget;
  hget_law = refl;
  hset = Commands.hset;
  hset_law = refl;
  zadd = Commands.zadd;
  zadd_law = refl;
  zadd_nx = Commands.zadd_nx;
  zadd_nx_law = refl;
  zincrby = Commands.zincrby;
  zincrby_law = refl;
  zrem = Commands.zrem;
  zrem_law = refl;
  zcard = Commands.zcard;
  zcard_law = refl;
  zdiff = Commands.zdiff;
  zdiff_law = refl;
  zpopmin = Commands.zpopmin;
  zpopmin_law = refl;
  zremrangebyscore_to_0 = Commands.zremrangebyscore_to_0;
  zremrangebyscore_to_0_law = refl;
}

documented-path : (r : Redis) → documented ≡ r
documented-path r = λ i. record {
  get = (contract' r.get_law i).0;
  get_law = (contract' r.get_law i).1;
  set = (contract' r.set_law i).0;
  set_law = (contract' r.set_law i).1;
  del = (contract' r.del_law i).0;
  del_law = (contract' r.del_law i).1;
  hget = (contract' r.hget_law i).0;
  hget_law = (contract' r.hget_law i).1;
  hset = (contract' r.hset_law i).0;
  hset_law = (contract' r.hset_law i).1;
  zadd = (contract' r.zadd_law i).0;
  zadd_law = (contract' r.zadd_law i).1;
  zadd_nx = (contract' r.zadd_nx_law i).0;
  zadd_nx_law = (contract' r.zadd_nx_law i).1;
  zincrby = (contract' r.zincrby_law i).0;
  zincrby_law = (contract' r.zincrby_law i).1;
  zrem = (contract' r.zrem_law i).0;
  zrem_law = (contract' r.zrem_law i).1;
  zcard = (contract' r.zcard_law i).0;
  zcard_law = (contract' r.zcard_law i).1;
  zdiff = (contract' r.zdiff_law i).0;
  zdiff_law = (contract' r.zdiff_law i).1;
  zpopmin = (contract' r.zpopmin_law i).0;
  zpopmin_law = (contract' r.zpopmin_law i).1;
  zremrangebyscore_to_0 = (contract' r.zremrangebyscore_to_0_law i).0;
  zremrangebyscore_to_0_law = (contract' r.zremrangebyscore_to_0_law i).1;
}

pub of_documented {ℓ} : (P : Redis → Type ℓ) → P documented → (r : Redis) → P r
of_documented P h r = subst P (documented-path r) h
