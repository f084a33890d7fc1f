-- ===== src/Dependencies/Laws.antt =====
-- The documented commands on sets are a service, and what holds of them holds of every service.
use mathlib.Core.Path.{contract', subst}
use common_build.Common.{◌≡◌, refl}
use common_build.Dependencies.{RedisSets}
use common_build.Dependencies.Sets

abbrev pub documented : RedisSets
documented = record {
  sadd = Sets.sadd;
  sadd_law = refl;
  srem = Sets.srem;
  srem_law = refl;
  smembers = Sets.smembers;
  smembers_law = refl;
  sismember = Sets.sismember;
  sismember_law = refl;
  del = Sets.del;
  del_law = refl;
}

documented-path : (r : RedisSets) → documented ≡ r
documented-path r = λ i. record {
  sadd = (contract' r.sadd_law i).0;
  sadd_law = (contract' r.sadd_law i).1;
  srem = (contract' r.srem_law i).0;
  srem_law = (contract' r.srem_law i).1;
  smembers = (contract' r.smembers_law i).0;
  smembers_law = (contract' r.smembers_law i).1;
  sismember = (contract' r.sismember_law i).0;
  sismember_law = (contract' r.sismember_law i).1;
  del = (contract' r.del_law i).0;
  del_law = (contract' r.del_law i).1;
}

pub of_documented {ℓ} : (P : RedisSets → Type ℓ) → P documented → (r : RedisSets) → P r
of_documented P h r = subst P (documented-path r) h
