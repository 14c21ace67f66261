-- ===== src/Auth/Sessions/Runs.antt =====
-- The sessions of backend/app/modules/auth/service.py over time: what the service's operations do
-- to Redis, one after the other, each with the tables as they are when it runs.
use ai_business_automation.Prelude.{
  ℕ, ◌≤◌, String, Option, none, some, Bool-cases, false, List, [], ◌∷◌, ◌≡◌, refl, ◌∙◌, ◌⊎◌, inl,
  inr, arith, str_eq,
}
use ai_business_automation.Errors.{Result, ok, err}
use ai_business_automation.Workflows.Graph.{Values}
use ai_business_automation.Organizations.Models.{Organization}
use ai_business_automation.Auth.Models.{User, AuthDb}
use ai_business_automation.Auth.Redis.{Key, same_key, Redis, IsRedis}
use ai_business_automation.Auth.Platform.{Platform}
use ai_business_automation.Auth.Accounts.{delete_keys, end_sessions, reset_password}
use ai_business_automation.Auth.Sessions.{
  LoginRequest, session_key, store_refresh_token, answered, logged_in, login, check_user,
}
use ai_business_automation.Auth.Refresh.{
  refresh, rotated, compared, looked_up, refresh_key, session_user, logout,
}
use ai_business_automation.Auth.Memberships.{Membership}

module _ (p : Platform) where
  -- A drawn session identifier that is not the one of the key.
  abbrev pub IsOther : Key → ℕ → Type 0
  IsOther k session_id = str_eq (p.show_id session_id) k.session ≡ false

module _ (p : Platform) (v : Values) where
  -- The store after one operation, where no new session is given the identifier of the key.
  pub data Step (k : Key) (now : ℕ) (s : p.redis.Store) : p.redis.Store → Type 0 where
    login_step :
        (session_id drawn : ℕ) (body : LoginRequest) (db : AuthDb v)
        → IsOther p k session_id
        → Step k now s (login p session_id drawn now body db s).1
    refresh_step :
        (session_id drawn : ℕ) (token : p.jwt.Token) (db : AuthDb v)
        → IsOther p k session_id
        → Step k now s (refresh p session_id drawn now token db s).1
    logout_step : (user_id session_id : ℕ) → Step k now s (logout p user_id session_id s)
    reset_step :
        (salt : ℕ) (token new_password : String) (db : AuthDb v)
        → Step k now s (reset_password p salt now token new_password db s).1

  -- Operations at times that do not go back.
  pub data Runs (k : Key) : ℕ → p.redis.Store → ℕ → p.redis.Store → Type 0 where
    done : {now : ℕ} {s : p.redis.Store} → Runs k now s now s
    wait :
        {now later end : ℕ} {s t : p.redis.Store}
        → now ≤ later
        → Runs k later s end t
        → Runs k now s end t
    step :
        {now end : ℕ} {s s' t : p.redis.Store}
        → Step k now s s'
        → Runs k now s' end t
        → Runs k now s end t

module _ (redis : Redis) where
  -- A key that is not there, now or later.
  abbrev pub IsAbsent : ℕ → Key → redis.Store → Type 0
  IsAbsent now k s = (later : ℕ) → now ≤ later → redis.get later k s ≡ none

module _ (redis : Redis) (laws : IsRedis redis) where
  pub delete-IsAbsent :
      (now : ℕ) (j k : Key) (s : redis.Store)
      → IsAbsent redis now k s
      → IsAbsent redis now k (redis.delete j s)
  delete-IsAbsent now j k s h later le =
      laws.get-delete later j k s ∙ elim (Bool-cases (same_key j k)) [
        | inl same ↦ rw same refl
        | inr other ↦ rw other (h later le)
      ]

  pub delete_keys-IsAbsent :
      (now : ℕ) (k : Key) (keys : List Key) (s : redis.Store)
      → IsAbsent redis now k s
      → IsAbsent redis now k (delete_keys redis keys s)
  unfolding delete_keys
  delete_keys-IsAbsent now k [] s h = h
  delete_keys-IsAbsent now k (j ∷ keys) s h =
      delete_keys-IsAbsent now k keys (redis.delete j s) (delete-IsAbsent now j k s h)

  set-IsAbsent :
      (now : ℕ) (j k : Key) (value : String) (ttl : ℕ) (s : redis.Store)
      → same_key j k ≡ false
      → IsAbsent redis now k s
      → IsAbsent redis now k (redis.set now j value ttl s)
  set-IsAbsent now j k value ttl s other h later le =
      laws.get-set now later j k value ttl s ∙ rw other (h later le)

module _ (p : Platform) (laws : IsRedis p.redis) (k : Key) (session_id : ℕ) where
  pub store-IsAbsent :
      (now user_id : ℕ) (token : p.jwt.Token) (s : p.redis.Store)
      → IsOther p k session_id
      → IsAbsent p.redis now k s
      → IsAbsent p.redis now k (store_refresh_token p now user_id session_id token s)
  store-IsAbsent now user_id token s other h =
      set-IsAbsent p.redis laws now (session_key p user_id session_id) k _ _ s
        (ground (arith, other)) h

module _ (p : Platform) (laws : IsRedis p.redis) {v : Values} (k : Key) (session_id : ℕ) where
  answered-IsAbsent :
      (drawn now : ℕ) (s : p.redis.Store) (user : User)
      (r : Result (List (Organization v) ⊎ Option (Membership v)))
      → IsOther p k session_id
      → IsAbsent p.redis now k s
      → IsAbsent p.redis now k (answered p session_id drawn now s user r).1
  answered-IsAbsent drawn now s user (err e) other h = h
  answered-IsAbsent drawn now s user (ok (inl os)) other h = h
  answered-IsAbsent drawn now s user (ok (inr m)) other h =
      store-IsAbsent p laws k session_id now user.id _ s other h

  logged_in-IsAbsent :
      (drawn now : ℕ) (body : LoginRequest) (db : AuthDb v) (s : p.redis.Store) (r : Result User)
      → IsOther p k session_id
      → IsAbsent p.redis now k s
      → IsAbsent p.redis now k (logged_in p session_id drawn now body db s r).1
  logged_in-IsAbsent drawn now body db s (err e) other h = h
  logged_in-IsAbsent drawn now body db s (ok user) other h =
      answered-IsAbsent drawn now s user _ other h

  rotated-IsAbsent :
      (drawn now : ℕ) (db : AuthDb v) (s : p.redis.Store) (r : Result User)
      → IsOther p k session_id
      → IsAbsent p.redis now k s
      → IsAbsent p.redis now k (rotated p session_id drawn now db s r).1
  rotated-IsAbsent drawn now db s (err e) other h = h
  rotated-IsAbsent drawn now db s (ok user) other h =
      store-IsAbsent p laws k session_id now user.id _ s other h

  compared-IsAbsent :
      (drawn now : ℕ) (token : p.jwt.Token) (j : Key) (db : AuthDb v) (o : Option String)
      (s : p.redis.Store)
      → IsOther p k session_id
      → IsAbsent p.redis now k s
      → IsAbsent p.redis now k (compared p session_id drawn now token j db (o, s)).1
  compared-IsAbsent drawn now token j db none s other h = h
  compared-IsAbsent drawn now token j db (some hash) s other h =
      elim (Bool-cases (str_eq hash (p.hash_refresh token))) [
        | inl same ↦ rw same (rotated-IsAbsent drawn now db s (session_user p j.user db) other h)
        | inr wrong ↦ rw wrong h
      ]

  looked_up-IsAbsent :
      (drawn now : ℕ) (token : p.jwt.Token) (db : AuthDb v) (s : p.redis.Store) (r : Result Key)
      → IsOther p k session_id
      → IsAbsent p.redis now k s
      → IsAbsent p.redis now k (looked_up p session_id drawn now token db s r).1
  looked_up-IsAbsent drawn now token db s (err e) other h = h
  looked_up-IsAbsent drawn now token db s (ok j) other h =
      compared-IsAbsent drawn now token j db _ _ other (delete-IsAbsent p.redis laws now j k s h)

module _ (p : Platform) (laws : IsRedis p.redis) {v : Values} where
  end_sessions-IsAbsent :
      (now : ℕ) (k : Key) (s : p.redis.Store) (r : Result (ℕ × AuthDb v))
      → IsAbsent p.redis now k s
      → IsAbsent p.redis now k (end_sessions p now s r).1
  end_sessions-IsAbsent now k s (err e) h = h
  end_sessions-IsAbsent now k s (ok (user_id, db)) h = delete_keys-IsAbsent p.redis laws now k _ s h

  Step-IsAbsent :
      (k : Key) (now : ℕ) {s s' : p.redis.Store}
      → Step p v k now s s'
      → IsAbsent p.redis now k s
      → IsAbsent p.redis now k s'
  unfolding login refresh logout reset_password
  Step-IsAbsent k now {s} (login_step session_id drawn body db other) h =
      logged_in-IsAbsent p laws k session_id drawn now body db s (check_user p body db) other h
  Step-IsAbsent k now {s} (refresh_step session_id drawn token db other) h =
      looked_up-IsAbsent p laws k session_id drawn now token db s (refresh_key p now token) other h
  Step-IsAbsent k now {s} (logout_step user_id session_id) h =
      delete-IsAbsent p.redis laws now (session_key p user_id session_id) k s h
  Step-IsAbsent k now {s} (reset_step salt token new_password db) h =
      end_sessions-IsAbsent now k s _ h

  -- A key that is gone stays gone, whatever the service does.
  pub Runs-IsAbsent :
      {k : Key} {now end : ℕ} {s t : p.redis.Store}
      → Runs p v k now s end t
      → IsAbsent p.redis now k s
      → IsAbsent p.redis end k t
  Runs-IsAbsent done h = h
  Runs-IsAbsent (wait le rest) h = Runs-IsAbsent rest (λ at late. h at (omega arith))
  Runs-IsAbsent {k} {now} (step one rest) h = Runs-IsAbsent rest (Step-IsAbsent k now one h)
