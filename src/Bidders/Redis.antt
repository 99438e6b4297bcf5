-- ===== src/Bidders/Redis.antt =====
-- The sets of Redis, and the command `HGETALL`, that src/idr/bidders/storage.py uses. Redis is a
-- service, so its commands are parameters.
use thenexusengine.Common.{◌≡◌, String, true, false, List, if◌then◌else◌, ◌==◌, string_eq}
use thenexusengine.Common.Members.{contains, lookup}
use thenexusengine.Keys.Hash.{Hash}

-- `SADD`, `SREM` and `SMEMBERS`.
pub record Set (Z : Type 0) : Type 0 where
  pub sadd : Z → String → Z
  pub srem : Z → String → Z
  pub smembers : Z → List String

-- What Redis documents of them.
pub record IsSetOf {Z : Type 0} (c : Set Z) : Type 0 where
  pub members_add :
      (z : Z) (k j : String)
      → contains (c.smembers (c.sadd z k)) j ≡ (if k == j then true else contains (c.smembers z) j)
  pub members_rem :
      (z : Z) (k j : String)
      → contains (c.smembers (c.srem z k)) j ≡ (if k == j then false else contains (c.smembers z) j)

-- `HGETALL` lists the fields of a hash with their values.
pub record IsScan {H V : Type 0} (c : Hash H V) (hgetall : H → List (String × V)) : Type 0 where
  pub listed : (h : H) (k : String) → lookup (hgetall h) k ≡ c.hget h k
