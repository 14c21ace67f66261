-- ===== src/Auth/Redis.antt =====
-- The commands of Redis that backend/app/modules/auth/service.py and backend/app/core/redis.py
-- use, behind their documented laws. A key is the pair of the two texts of `redis_session_key`:
-- the text of a UUID holds no colon, so "session:<user>:<session>" says which they are, and the
-- pattern "session:<user>:*" matches the keys of the user.
use ai_business_automation.Prelude.{
  ℕ, ◌+◌, ◌≤◌, String, Option, none, some, Bool, ◌&&◌, List, ◌≡◌, str_eq, ltb, if◌then◌else◌,
  Member,
}

-- `redis_session_key(user_id, session_id)`
pub record Key : Type 0 where
  pub user : String
  pub session : String

abbrev pub same_key : Key → Key → Bool
same_key j k = str_eq j.user k.user && str_eq j.session k.session

-- GET, SET with EX, DEL and SCAN with the pattern of a user, each at a time where time matters.
pub record Redis : Type 1 where
  pub Store : Type 0
  pub get : ℕ → Key → Store → Option String
  pub set : ℕ → Key → String → ℕ → Store → Store
  pub delete : Key → Store → Store
  pub scan : ℕ → String → Store → List Key

pub record IsRedis (redis : Redis) : Type 0 where
  -- A key that is set holds its value for its time to live.
  pub get-set :
      (now later : ℕ) (j k : Key) (value : String) (ttl : ℕ) (s : redis.Store)
      → redis.get later k (redis.set now j value ttl s) ≡ (
          if same_key j k
          then (if ltb later (now + ttl) then some value else none)
          else redis.get later k s)
  pub get-delete :
      (now : ℕ) (j k : Key) (s : redis.Store)
      → redis.get now k (redis.delete j s) ≡ (if same_key j k then none else redis.get now k s)
  -- A key that is not there does not come by itself.
  pub gone :
      (now later : ℕ) (k : Key) (s : redis.Store)
      → now ≤ later
      → redis.get now k s ≡ none
      → redis.get later k s ≡ none
  -- A scan returns every key that is there.
  pub scanned :
      (now : ℕ) (k : Key) (s : redis.Store) (value : String)
      → redis.get now k s ≡ some value
      → Member k (redis.scan now k.user s)
  -- It returns no key that the pattern does not match.
  pub matched :
      (now : ℕ) (user : String) (k : Key) (s : redis.Store)
      → Member k (redis.scan now user s)
      → k.user ≡ user
