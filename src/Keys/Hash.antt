-- ===== src/Keys/Hash.antt =====
-- The hashes of Redis that src/idr/auth/api_keys.py uses, as the commands `HGET`, `HSET` and `HDEL`
-- on a state `H`, with values of one type. Redis is a service, so they are a parameter.
use thenexusengine.Common.{◌≡◌, String, Option, none, some, if◌then◌else◌, ◌==◌, string_eq}

pub record Hash (H V : Type 0) : Type 0 where
  pub hget : H → String → Option V
  pub hset : H → String → V → H
  pub hdel : H → String → H

-- What Redis documents of the commands: a field has the value that was last set, if none deleted it
-- since, and a command on one field leaves the others alone.
pub record IsHash {H V : Type 0} (c : Hash H V) : Type 0 where
  pub get_set :
      (h : H) (k : String) (v : V) (j : String)
      → c.hget (c.hset h k v) j ≡ (if k == j then some v else c.hget h j)
  pub get_del :
      (h : H) (k j : String) → c.hget (c.hdel h k) j ≡ (if k == j then none else c.hget h j)
