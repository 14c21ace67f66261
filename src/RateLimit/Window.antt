-- ===== src/RateLimit/Window.antt =====
-- The sliding window of backend/app/core/rate_limit.py against its definition: the requests of the
-- key within the window are counted over the whole history of requests.
use ai_business_automation.Prelude.{
  ℕ, ◌+◌, ◌-◌, ◌≤◌, ◌<◌, String, Bool-cases, true, false, List, [], ◌∷◌, ◌++◌, ◌≡◌, refl, sym, ap,
  subst, ◌∙◌, inl, inr, arith, str_eq, eq_iff, ltb, if◌then◌else◌, select, select-append, length,
  length-append, All,
}
use ai_business_automation.Errors.{rate_limited, raise_if}
use ai_business_automation.RateLimit.Scores.{
  is_recent, select-select, select_same, select_all, select_old, insert_last, All-select, All-snoc,
  All-weaken,
}
use ai_business_automation.RateLimit.{SortedSets, IsSortedSets, insert, drop_old, check_rate_limit}

pub record Call : Type 0 where
  pub key : String
  pub at : ℕ

-- The times of the requests of a key, the oldest first, where the history has its last one first.
abbrev pub times : String → List Call → List ℕ
times key [] = []
times key (c ∷ history) =
    let rest = times key history in if str_eq c.key key then rest ++ c.at ∷ [] else rest

-- The clock does not go back, and two requests of one key have different times.
abbrev pub IsOrdered : List Call → Type 0
IsOrdered [] = Unit
IsOrdered (c ∷ history) =
    All (λ (d : Call). d.at ≤ c.at) history
    × All (λ t. t < c.at) (times c.key history)
    × IsOrdered history

module _ (z : SortedSets) where
  -- The store after a history of requests with one limit, on a store that starts empty.
  unfoldable pub run : ℕ → ℕ → List Call → z.Store
  run limit window_seconds [] = z.empty
  run limit window_seconds (c ∷ history) =
      (check_rate_limit z true limit window_seconds c.at c.key (run limit window_seconds history)).1

module _ (z : SortedSets) (laws : IsSortedSets z) (window_seconds now : ℕ) (key : String)
    (s : z.Store) where
  zrange-drop_old :
      z.zrange now key (drop_old z window_seconds now key s)
      ≡ select (is_recent window_seconds now) (z.zrange now key s)
  zrange-drop_old = elim (Bool-cases (ltb now window_seconds)) [
    | inl early ↦ rw early (
        sym (
          select_all (is_recent window_seconds now) (z.zrange now key s)
            (λ t. ground (arith, early))))
    | inr late ↦ rw late (
        laws.zrange-zremrangebyscore now (now - window_seconds) key s
        ∙ select_same (λ t. ltb (now - window_seconds) t) (is_recent window_seconds now)
            (z.zrange now key s) (λ t. ground (arith, late)))
  ]

  other_dropped :
      (later : ℕ) (other : String)
      → str_eq key other ≡ false
      → z.zrange later other (drop_old z window_seconds now key s) ≡ z.zrange later other s
  other_dropped later other apart = elim (Bool-cases (ltb now window_seconds)) [
    | inl early ↦ rw early refl
    | inr late ↦ rw late (laws.other_removed now later (now - window_seconds) key other s apart)
  ]

module _ (z : SortedSets) (laws : IsSortedSets z) (limit window_seconds : ℕ) where
  zrange-check :
      (now later : ℕ) (key : String) (s : z.Store)
      → now ≤ later
      → z.zrange later key (check_rate_limit z true limit window_seconds now key s).1 ≡ (
          if ltb later (now + window_seconds)
          then insert now (select (is_recent window_seconds now) (z.zrange now key s))
          else [])
  unfolding check_rate_limit
  zrange-check now later key s le =
      laws.zrange-expire now later window_seconds key
        (z.zadd now key now (drop_old z window_seconds now key s)) le
      ∙ rw (laws.zrange-zadd now now key (drop_old z window_seconds now key s))
          (rw (zrange-drop_old z laws window_seconds now key s) refl)

  zrange-check_other :
      (now later : ℕ) (key other : String) (s : z.Store)
      → str_eq key other ≡ false
      → z.zrange later other (check_rate_limit z true limit window_seconds now key s).1
        ≡ z.zrange later other s
  unfolding check_rate_limit
  zrange-check_other now later key other s apart =
      laws.other_expired now later window_seconds key other _ apart
      ∙ laws.other_added now later now key other _ apart
      ∙ other_dropped z laws window_seconds now key s later other apart

  -- What is left of a history in a window, when a request of the key is added to it.
  recent_last :
      (now later : ℕ) (xs : List ℕ)
      → All (λ t. t < now) xs
      → now ≤ later
      → select (is_recent window_seconds later) (
          if ltb later (now + window_seconds)
          then insert now (select (is_recent window_seconds now) xs)
          else [])
        ≡ select (is_recent window_seconds later) (xs ++ now ∷ [])
  recent_last now later xs below le =
      let kept = select (is_recent window_seconds now) xs in
      elim (Bool-cases (ltb later (now + window_seconds))) [
        | inl soon ↦ rw soon (
            rw
              (insert_last now kept
                (All-select (λ t. t < now) (is_recent window_seconds now) xs below))
              (rw (select-append (is_recent window_seconds later) kept (now ∷ [])) (
                rw (select-append (is_recent window_seconds later) xs (now ∷ [])) (
                  rw
                    (select-select (is_recent window_seconds later) (is_recent window_seconds now)
                      xs (λ t h. ground (arith, h, le)))
                    refl))))
        | inr late ↦ rw late (
            sym (
              select_old window_seconds now later (xs ++ now ∷ [])
                (All-snoc (λ t. t ≤ now) xs now (All-weaken now xs below) (omega arith))
                (ground (arith, late))))
      ]

  run-times_own :
      (c : Call) (history : List Call) (later : ℕ)
      → All (λ t. t < c.at) (times c.key history)
      → c.at ≤ later
      → select
          (is_recent window_seconds c.at)
          (z.zrange c.at c.key (run z limit window_seconds history))
        ≡ select (is_recent window_seconds c.at) (times c.key history)
      → select
          (is_recent window_seconds later)
          (z.zrange later c.key (run z limit window_seconds (c ∷ history)))
        ≡ select (is_recent window_seconds later) (times c.key history ++ c.at ∷ [])
  unfolding run
  run-times_own c history later below le before =
      rw (zrange-check c.at later c.key (run z limit window_seconds history) le)
        (rw before (recent_last c.at later (times c.key history) below le))

  -- The store and the history agree on the recent requests of every key.
  run-times :
      (key : String) (history : List Call) (later : ℕ)
      → IsOrdered history
      → All (λ (d : Call). d.at ≤ later) history
      → select
          (is_recent window_seconds later)
          (z.zrange later key (run z limit window_seconds history))
        ≡ select (is_recent window_seconds later) (times key history)
  unfolding run
  run-times key [] later ordered all = rw (laws.zrange-empty later key) refl
  run-times key (c ∷ history) later ordered all =
      let (before, below, rest) = ordered in
      elim (Bool-cases (str_eq c.key key)) [
        | inr other ↦
            rw (zrange-check_other c.at later c.key key (run z limit window_seconds history) other)
              (rw other (run-times key history later rest all.1))
        | inl own ↦ rw own (
            subst
              (λ k.
                select (is_recent window_seconds later)
                  (z.zrange later k (run z limit window_seconds (c ∷ history)))
                ≡ select (is_recent window_seconds later) (times k history ++ c.at ∷ []))
              ((eq_iff c.key key).0 own)
              (run-times_own c history later below all.0
                (run-times c.key history c.at rest before)))
      ]

  -- With the rate limit on, a request is let through if and only if at most `limit` requests of its
  -- key were made in the window that ends with it, itself and the refused ones counted, as long as
  -- the clock does not go back and two requests of one key have different times.
  pub check_rate_limit_eq :
      (c : Call) (history : List Call)
      → IsOrdered (c ∷ history)
      → (check_rate_limit z true limit window_seconds c.at c.key
          (run z limit window_seconds history)).0
        ≡ raise_if
            (ltb limit (length (select (is_recent window_seconds c.at) (times c.key history)) + 1))
            rate_limited
  unfolding check_rate_limit
  check_rate_limit_eq c history ordered =
      let (before, below, rest) = ordered in
      let s = run z limit window_seconds history in
      let recent = select (is_recent window_seconds c.at) (times c.key history) in
      let counted : z.zcard c.at c.key
            (z.zadd c.at c.key c.at (drop_old z window_seconds c.at c.key s))
          ≡ length recent + 1 =
        laws.zcard-zrange c.at c.key _
        ∙ ap length (
            laws.zrange-zadd c.at c.at c.key (drop_old z window_seconds c.at c.key s)
            ∙ ap (insert c.at) (
                zrange-drop_old z laws window_seconds c.at c.key s
                ∙ run-times c.key history c.at rest before)
            ∙ insert_last c.at recent (
                All-select (λ t. t < c.at) (is_recent window_seconds c.at) (times c.key history)
                  below))
        ∙ length-append recent (c.at ∷ []) in
      rw counted refl
