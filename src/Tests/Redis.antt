-- ===== src/Tests/Redis.antt =====
-- A store of keys with a time to live, and sorted sets, that have the laws that are asked of Redis.
use ai_business_automation.Prelude.{
  ℕ, ◌+◌, ◌≤◌, String, Option, none, some, Bool, Bool-cases, true, false, not, List, [], ◌∷◌, ◌≡◌,
  refl, ap, ◌∙◌, sym, inl, inr, arith, str_eq, eq_iff, ltb, if◌then◌else◌, select, map, length,
  Member, mem-map, mem-select,
}
use ai_business_automation.Auth.Redis.{Key, same_key, Redis, IsRedis}
use ai_business_automation.RateLimit.{SortedSets, IsSortedSets, insert}

-- A key with its value and the time from which on it is gone.
pub record Entry : Type 0 where
  pub key : Key
  pub value : String
  pub deadline : ℕ

abbrev pub lookup : ℕ → Key → List Entry → Option String
lookup now k [] = none
lookup now k (e ∷ entries) =
    let rest = lookup now k entries in
    if same_key e.key k then (if ltb now e.deadline then some e.value else none) else rest

abbrev pub remove : Key → List Entry → List Entry
remove k = select (λ e. not (same_key k e.key))

abbrev pub is_of : String → Entry → Bool
is_of user e = str_eq e.key.user user

abbrev pub listed : Redis
listed = record {
  Store = List Entry;
  get = lookup;
  set = λ now k value ttl s. record { key = k; value = value; deadline = now + ttl } ∷ s;
  delete = remove;
  scan = λ now user s. map (λ e. e.key) (select (is_of user) s);
}

key_eq : (j k : Key) → same_key j k ≡ true → j ≡ k
key_eq j k h =
    let user : j.user ≡ k.user = (eq_iff j.user k.user).0 (ground (arith, h)) in
    let session : j.session ≡ k.session = (eq_iff j.session k.session).0 (ground (arith, h)) in
    cc (user, session)

lookup-remove :
    (now : ℕ) (j k : Key) (s : List Entry)
    → lookup now k (remove j s) ≡ (if same_key j k then none else lookup now k s)
lookup-remove now j k [] = ground arith
lookup-remove now j k (e ∷ s) =
    let rest = lookup-remove now j k s in
    elim (Bool-cases (same_key j e.key)) [
      | inl gone ↦
          let same : j ≡ e.key = key_eq j e.key gone in
          rw gone (
            rest ∙ elim (Bool-cases (same_key j k)) [
              | inl hit ↦ rw hit refl
              | inr miss ↦
                  let other : same_key e.key k ≡ false = rw (sym same) miss in rw (miss, other) refl
            ])
      | inr stays ↦ rw stays (elim (Bool-cases (same_key e.key k)) [
        | inl hit ↦
            let same : e.key ≡ k = key_eq e.key k hit in
            let other : same_key j k ≡ false = rw (sym same) stays in rw (hit, other) refl
        | inr miss ↦ rw miss rest
      ])
    ]

lookup_gone :
    (now later : ℕ) (k : Key) (s : List Entry)
    → now ≤ later
    → lookup now k s ≡ none
    → lookup later k s ≡ none
lookup_gone now later k [] le h = refl
lookup_gone now later k (e ∷ s) le h = ground (arith, le, lookup_gone now later k s le)

lookup_scanned :
    (now : ℕ) (k : Key) (s : List Entry) (value : String)
    → lookup now k s ≡ some value
    → Member k (map (λ e. e.key) (select (is_of k.user) s))
lookup_scanned now k [] value h = cc
lookup_scanned now k (e ∷ s) value h =
    let rest = lookup_scanned now k s value in
    elim (Bool-cases (same_key e.key k)) [
      | inl hit ↦
          let same : e.key ≡ k = key_eq e.key k hit in
          let of_user : is_of k.user e ≡ true =
            (eq_iff e.key.user k.user).1 (ap (λ (x : Key). x.user) same) in
          rw of_user (inl (sym same))
      | inr miss ↦
          let m = rest (ground (arith, miss, h)) in
          elim (Bool-cases (is_of k.user e)) [
            | inl mine ↦ rw mine (inr m)
            | inr not_mine ↦ rw not_mine m
          ]
    ]

pub listed-IsRedis : IsRedis listed
listed-IsRedis = record {
  get-set = λ now later j k value ttl s. refl;
  get-delete = lookup-remove;
  gone = lookup_gone;
  scanned = λ now k s value h. lookup_scanned now k s value h;
  matched = λ now user k s m.
      let (e, l, named) = (mem-map (λ (e : Entry). e.key) k (select (is_of user) s)).0 m in
      let (_, hit) = (mem-select (is_of user) e s).0 l in
      ap (λ (x : Key). x.user) (sym named) ∙ (eq_iff e.key.user user).0 hit;
}

-- One sorted set for each key, and the time from which on it is gone.
abbrev pub Sets : Type 0
Sets = String → List ℕ × Option ℕ

abbrev pub scores_at : ℕ → List ℕ × Option ℕ → List ℕ
scores_at now (xs, none) = xs
scores_at now (xs, some deadline) = if ltb now deadline then xs else []

abbrev pub set_at : String → List ℕ × Option ℕ → Sets → Sets
set_at key entry s other = if str_eq key other then entry else s other

abbrev pub tables : SortedSets
tables = record {
  Store = Sets;
  empty = λ key. ([], none);
  zrange = λ now key s. scores_at now (s key);
  zremrangebyscore =
      λ now key bound s. set_at key (select (λ t. ltb bound t) (scores_at now (s key)), none) s;
  zadd = λ now key score s. set_at key (insert score (scores_at now (s key)), none) s;
  zcard = λ now key s. length (scores_at now (s key));
  expire = λ now key ttl s. set_at key (scores_at now (s key), some (now + ttl)) s;
}

set_at_own : (key : String) (entry : List ℕ × Option ℕ) (s : Sets) → set_at key entry s key ≡ entry
set_at_own key entry s = rw ((eq_iff key key).1 refl) refl

pub tables-IsSortedSets : IsSortedSets tables
tables-IsSortedSets = record {
  zrange-empty = λ now key. refl;
  zrange-zremrangebyscore = λ now bound key s. ap (scores_at now) (set_at_own key _ s);
  zrange-zadd = λ now score key s. ap (scores_at now) (set_at_own key _ s);
  zcard-zrange = λ now key s. refl;
  zrange-expire = λ now later ttl key s le. ap (scores_at later) (set_at_own key _ s);
  other_removed = λ now later bound key other s apart. rw apart refl;
  other_added = λ now later score key other s apart. rw apart refl;
  other_expired = λ now later ttl key other s apart. rw apart refl;
}
