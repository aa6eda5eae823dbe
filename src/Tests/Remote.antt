-- ===== src/Tests/Remote.antt =====
-- The Redis store's theorem on a server that is a list of what was written, the newest first.
use whatsapp_commerce_bot.Base.{
  ℕ, ◌+◌, ◌≡◌, refl, arith, String, Option, none, some, List, [], ◌∷◌, ltb, str_eq, is_some, true,
  false, if◌then◌else◌,
}
use whatsapp_commerce_bot.Redis.{Redis, IsRedis}
use whatsapp_commerce_bot.Sessions.{shop_list, cart, empty_context, get}
use whatsapp_commerce_bot.Sessions.Redis.{Document, redis_get}
use whatsapp_commerce_bot.Sessions.Redis.Refines.{
  StoreChange, sets, resets, in_memory, in_redis, redis_get-in_redis,
}
use whatsapp_commerce_bot.Tests.{phone}

-- A key, its value, if it is not deleted, and the end of its time.
abbrev Server : Type 0
Server = List (String × Option Document × ℕ)

find : ℕ → String → Server → Option Document
find now key [] = none
find now key ((k, v, expiry) ∷ s) =
    if str_eq k key then (if ltb now expiry then v else none) else find now key s

abbrev put : ℕ → String → ℕ → Document → Server → Server
put now key seconds v s = (key, some v, now + seconds) ∷ s

server : Redis Server Document
server = record {
  empty = [];
  get = find;
  setex = put;
  delete = λ key s. (key, none, 0) ∷ s;
  set_nx = λ now key seconds v s.
      if is_some (find now key s) then (false, s) else (true, put now key seconds v s);
}

server-IsRedis : IsRedis server
unfolding server find
server-IsRedis = record {
  get-empty = λ now key. refl;
  get-setex = λ at now key other seconds v s past. refl;
  get-delete = λ now key other s. ground arith;
  set_nx-setex = λ now key seconds v s. refl;
}

abbrev changes : List StoreChange
changes =
    sets 5000 1 phone cart empty_context
    ∷ resets 2 phone
    ∷ sets 4000 1 phone shop_list empty_context
    ∷ []

redis_get-in_redis_example :
    redis_get server 6000 1 phone (in_redis server changes) ≡ get 6000 1 phone (in_memory changes)
redis_get-in_redis_example =
    redis_get-in_redis server server-IsRedis 6000 1 phone changes (omega arith, (omega arith, tt))
