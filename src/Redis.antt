-- ===== src/Redis.antt =====
-- The Redis server that core/history.py and core/main.py use where REDIS_URL names one. It is not the
-- program's code: an argument, with what its commands are documented to do. It keeps texts, and what
-- `json.loads` reads back is what `json.dumps` was given, so a server keeps the values themselves.
use whatsapp_commerce_bot.Base.{
  ℕ, ◌+◌, ◌≡◌, ◌≤◌, String, Bool, true, false, Option, none, some, ltb, str_eq, is_some,
  if◌then◌else◌,
}

-- GET, SETEX, DEL and SET with NX and EX, at a time, and an empty database. `set_nx` says whether it set.
pub record Redis (Server V : Type 0) : Type 0 where
  pub empty : Server
  pub get : (now : ℕ) → (key : String) → Server → Option V
  pub setex : (now : ℕ) → (key : String) → (seconds : ℕ) → V → Server → Server
  pub delete : (key : String) → Server → Server
  pub set_nx : (now : ℕ) → (key : String) → (seconds : ℕ) → V → Server → Bool × Server

-- A key that is set is there until its seconds have passed, one that is deleted is not there, and no
-- command touches another key.
pub record IsRedis {Server V : Type 0} (redis : Redis Server V) : Type 0 where
  pub get-empty : (now : ℕ) (key : String) → redis.get now key redis.empty ≡ none
  pub get-setex :
      (at now : ℕ) (key other : String) (seconds : ℕ) (v : V) (s : Server)
      → at ≤ now
      → redis.get now other (redis.setex at key seconds v s) ≡ (
          if str_eq key other
          then (if ltb now (at + seconds) then some v else none)
          else redis.get now other s)
  pub get-delete :
      (now : ℕ) (key other : String) (s : Server)
      → redis.get now other (redis.delete key s)
        ≡ (if str_eq key other then none else redis.get now other s)
  pub set_nx-setex :
      (now : ℕ) (key : String) (seconds : ℕ) (v : V) (s : Server)
      → redis.set_nx now key seconds v s ≡ (
          if is_some (redis.get now key s)
          then (false, s)
          else (true, redis.setex now key seconds v s))
