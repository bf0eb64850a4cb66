-- ===== src/Redis.antt =====
-- The Redis client (ioredis, a third-party package) as an interface: each command takes the state of
-- the server, and gives the reply, or the error with which the promise rejects, and the new state.
use streamerson.Prelude.{ℕ, String, Option, List}
use streamerson.Prelude.Result.{Result}
use streamerson.Prelude.Integer.{ℤ}
use streamerson.Prelude.Value.{Fields}
use streamerson.Message.{StreamEventData}

-- The pages of a read: for each stream, its name and its entries.
abbrev pub Pages : Type 0
Pages = List (String × List StreamEventData)

pub record Redis (S : Type 0) : Type 0 where
  -- key, fields; replies with the new entry's ID
  pub xadd : String → List String → S → Result String × S
  -- timeout, count, the keys followed by as many cursors
  pub xread : ℕ → Option ℕ → List String → S → Result (Option Pages) × S
  -- group, member, timeout, key, cursor
  pub xreadgroup : String → String → ℕ → String → String → S → Result (Option Pages) × S
  -- key, group, entry ID
  pub xack : String → String → String → S → Result ℕ × S
  -- key, group, cursor
  pub xgroup_create : String → String → String → S → Result String × S
  -- key, group, member
  pub xgroup_createconsumer : String → String → String → S → Result String × S
  pub get : String → S → Result (Option String) × S
  pub set : String → String → S → Result String × S
  pub incr : String → S → Result ℤ × S
  pub decr : String → S → Result ℤ × S
  pub hgetall : String → S → Result Fields × S
  pub hset : String → Fields → S → Result ℕ × S
