-- ===== src/RateLimit.antt =====
-- The sliding window of backend/app/core/rate_limit.py. The sorted sets of Redis are a parameter
-- under their documented laws; a member is the text of its score, so a set is the list of its
-- scores, in order. The time is a natural number of clock ticks.
pub mod Scores
pub mod Window
use ai_business_automation.Prelude.{
  ℕ, ◌+◌, ◌-◌, ◌≤◌, String, Bool, not, List, [], ◌∷◌, ◌≡◌, false, ◌==◌, str_eq, ltb, if◌then◌else◌,
  select, length,
}
use ai_business_automation.Errors.{Result, ok, rate_limited, raise_if}

-- ZREMRANGEBYSCORE from "-inf", ZADD, ZCARD and EXPIRE, and the scores that ZRANGE shows at a time.
pub record SortedSets : Type 1 where
  pub Store : Type 0
  pub empty : Store
  pub zrange : ℕ → String → Store → List ℕ
  pub zremrangebyscore : ℕ → String → ℕ → Store → Store
  pub zadd : ℕ → String → ℕ → Store → Store
  pub zcard : ℕ → String → Store → ℕ
  pub expire : ℕ → String → ℕ → Store → Store

-- The scores in order, each once.
abbrev pub insert : ℕ → List ℕ → List ℕ
insert t [] = t ∷ []
insert t (x ∷ xs) =
    let rest = insert t xs in if t == x then x ∷ xs else if ltb t x then t ∷ x ∷ xs else x ∷ rest

pub record IsSortedSets (z : SortedSets) : Type 0 where
  pub zrange-empty : (now : ℕ) (key : String) → z.zrange now key z.empty ≡ []
  pub zrange-zremrangebyscore :
      (now bound : ℕ) (key : String) (s : z.Store)
      → z.zrange now key (z.zremrangebyscore now key bound s)
        ≡ select (λ t. ltb bound t) (z.zrange now key s)
  pub zrange-zadd :
      (now score : ℕ) (key : String) (s : z.Store)
      → z.zrange now key (z.zadd now key score s) ≡ insert score (z.zrange now key s)
  pub zcard-zrange :
      (now : ℕ) (key : String) (s : z.Store) → z.zcard now key s ≡ length (z.zrange now key s)
  -- A set with a time to live stays as it is until then, and is gone from then on.
  pub zrange-expire :
      (now later ttl : ℕ) (key : String) (s : z.Store)
      → now ≤ later
      → z.zrange later key (z.expire now key ttl s)
        ≡ (if ltb later (now + ttl) then z.zrange now key s else [])
  -- No command changes another key.
  pub other_removed :
      (now later bound : ℕ) (key other : String) (s : z.Store)
      → str_eq key other ≡ false
      → z.zrange later other (z.zremrangebyscore now key bound s) ≡ z.zrange later other s
  pub other_added :
      (now later score : ℕ) (key other : String) (s : z.Store)
      → str_eq key other ≡ false
      → z.zrange later other (z.zadd now key score s) ≡ z.zrange later other s
  pub other_expired :
      (now later ttl : ℕ) (key other : String) (s : z.Store)
      → str_eq key other ≡ false
      → z.zrange later other (z.expire now key ttl s) ≡ z.zrange later other s

module _ (z : SortedSets) where
  -- `zremrangebyscore(full_key, "-inf", now - window_seconds)`; a bound below 0 removes nothing,
  -- since no score is.
  abbrev pub drop_old : ℕ → ℕ → String → z.Store → z.Store
  drop_old window_seconds now key s =
      if ltb now window_seconds then s else z.zremrangebyscore now key (now - window_seconds) s

  -- `enabled` is RATE_LIMIT_ENABLED. Every key has the same prefix, which is left out.
  unfoldable pub check_rate_limit :
      Bool → ℕ → ℕ → ℕ → String → z.Store → Result (Unit {0}) × z.Store
  check_rate_limit enabled limit window_seconds now key s =
      if not enabled
      then (ok tt, s)
      else let added = z.zadd now key now (drop_old window_seconds now key s) in
        (
          raise_if (ltb limit (z.zcard now key added)) rate_limited,
          z.expire now key window_seconds added,
        )
