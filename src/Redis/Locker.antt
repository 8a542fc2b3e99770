-- ===== src/Redis/Locker.antt =====
-- internal/repository/redis/lock.go and ratelimit.go.
use ticketing_backend.Prelude.{
  ℕ, ◌==◌, leb, String, Bool, false, Option, none, some, if◌then◌else◌, str_eq,
}
use ticketing_backend.Store.Action.{new_uuid}
use ticketing_backend.Redis.{Key, Client, Service, return, ◌>>=◌, ◌>>◌, lift, call}

module _ {S : Type 0} (client : Client S) where
  -- Locker.Acquire
  unfoldable pub acquire : Key → ℕ → Service S (String × Bool)
  acquire key ttl = do
    id ← lift new_uuid
    let token = client.uuid_string id
    got ← call (λ now. client.set_nx now key token ttl)
    return (token, got)

  -- redis.call("GET", KEYS[1]) == ARGV[1]
  abbrev pub is_owner : String → Option String → Bool
  is_owner token none = false
  is_owner token (some value) = str_eq value token

  -- unlockScript
  unfoldable pub unlock : ℕ → Key → String → S → ℕ × S
  unlock now key token s =
      if is_owner token (client.get now key s) then client.del now key s else (0, s)

  -- Locker.Release
  unfoldable pub release : Key → String → Service S Bool
  unfolding unlock
  release key token = do deleted ← call (λ now. unlock now key token); return (deleted == 1)

  abbrev start_window : Key → ℕ → ℕ → Service S (Unit {0})
  start_window key window count =
      if count == 1 then call (λ now s. (tt, client.expire now key window s)) else return tt

  -- RateLimiter.Allow
  unfoldable pub allow : Key → ℕ → ℕ → Service S Bool
  allow key limit window = do
    count ← call (λ now. client.incr now key)
    start_window key window count
    return (leb count limit)
