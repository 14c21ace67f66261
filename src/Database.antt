-- ===== src/Database.antt =====
-- What backend/app/core/database.py's sessions do to a table, for the tables of the organizations
-- module: a table is the list of its rows, in the order in which they were added.
use ai_business_automation.Prelude.{
  ℕ, Bool, true, false, not, List, [], ◌∷◌, ◌++◌, ◌≡◌, refl, arith, ◌==◌, if◌then◌else◌, map, any,
  select, ap, ◌∙◌, Member, inl, inr, Bool-cases, ==_iff, any-mem, mem-select, subst, sym, ◌⊎◌, ◌≢◌,
}
use mathlib.Core.List
use ai_business_automation.Errors.{uncaught, Result, ok, err}

module _ {A : Type 0} where
  -- `db.add(row)` and the flush; a row that breaks a constraint is an `IntegrityError`.
  abbrev pub add_row : (A → Bool) → A → List A → Result (List A)
  add_row clashes row rows = if any clashes rows then err uncaught else ok (rows ++ row ∷ [])

module _ {A : Type 0} (id_of : A → ℕ) where
  -- The flush of changed attributes of the object with this primary key.
  unfoldable pub change_row : ℕ → (A → A) → List A → List A
  change_row id f [] = []
  change_row id f (r ∷ rows) = (if id_of r == id then f r else r) ∷ change_row id f rows

  -- `db.delete(row)`
  abbrev pub delete_row : ℕ → List A → List A
  delete_row id = select (λ r. not (id_of r == id))

  -- A change that takes the only row of a query out of it leaves the query empty.
  pub select-change_row_nil :
      (p : A → Bool) (f : A → A) (a : A) (rows : List A)
      → ((r : A) → Member r rows → p r ≡ true → r ≡ a)
      → ((r : A) → p (f r) ≡ false)
      → select p (change_row (id_of a) f rows) ≡ []
  unfolding change_row
  select-change_row_nil p f a [] only out = refl
  select-change_row_nil p f a (r ∷ rows) only out =
      let rest = select-change_row_nil p f a rows (λ x m. only x (inr m)) out in
      elim (Bool-cases (id_of r == id_of a)) [
        | inl at ↦ rw at (rw (out r) rest)
        | inr off ↦ elim (Bool-cases (p r)) [
          | inl hit ↦ cc (off, (==_iff (id_of r) (id_of a)).1 (ap id_of (only r (inl refl) hit)))
          | inr miss ↦ rw off (rw miss rest)
        ]
      ]

  -- A change that a test does not see changes what the test finds.
  pub select-change_row :
      (q : A → Bool) (f : A → A) (id : ℕ) (rows : List A)
      → ((r : A) → q (f r) ≡ q r)
      → select q (change_row id f rows) ≡ change_row id f (select q rows)
  unfolding change_row
  select-change_row q f id [] same = refl
  select-change_row q f id (r ∷ rows) same =
      ground (arith, same r, select-change_row q f id rows same)

  -- A change that takes rows out of a test, but none that passed it, changes nothing for it.
  pub select-change_row_off :
      (q : A → Bool) (f : A → A) (id : ℕ) (rows : List A)
      → ((r : A) → q (f r) ≡ false)
      → ((r : A) → Member r rows → q r ≡ true → id_of r ≢ id)
      → select q (change_row id f rows) ≡ select q rows
  unfolding change_row
  select-change_row_off q f id [] out off = refl
  select-change_row_off q f id (r ∷ rows) out off =
      ground (
        arith,
        out r,
        off r (inl refl),
        select-change_row_off q f id rows out (λ x m. off x (inr m)),
      )

  -- A row of the changed table is an old one, or a changed old one.
  pub mem-change_row :
      (id : ℕ) (f : A → A) (x : A) (rows : List A)
      → Member x (change_row id f rows)
      → Member x rows ⊎ ((r : A) × Member r rows × (id_of r ≡ id) × (x ≡ f r))
  unfolding change_row
  mem-change_row id f x [] m = absurd m
  mem-change_row id f x (r ∷ rows) (inl e) = elim (Bool-cases (id_of r == id)) [
    | inl at ↦ inr (r, inl refl, (==_iff (id_of r) id).0 at, rw at at e)
    | inr off ↦ inl (inl (rw off at e))
  ]
  mem-change_row id f x (r ∷ rows) (inr m) = elim (mem-change_row id f x rows m) [
    | inl k ↦ inl (inr k)
    | inr (y, k, e, q) ↦ inr (y, inr k, e, q)
  ]

  -- Primary keys are unique.
  abbrev pub UniqueKeys : List A → Type 0
  UniqueKeys [] = Unit
  UniqueKeys (r ∷ rows) = (any (λ x. id_of x == id_of r) rows ≡ false) × UniqueKeys rows

  none_else :
      (q : A → Bool) (g : A → A) (n : A) (rows : List A)
      → any (λ x. id_of x == id_of n) rows ≡ false
      → ((r : A) → Member r rows → q (g r) ≡ true → id_of r ≡ id_of n)
      → select q (map g rows) ≡ []
  none_else q g n [] h only = refl
  none_else q g n (r ∷ rows) h only =
      ground (arith, only r (inl refl), none_else q g n rows (ground arith) (λ x m. only x (inr m)))

  -- If only the row of one key passes a test after a change of all rows, the test finds that row.
  pub select-map_one :
      (q : A → Bool) (g : A → A) (n : A) (rows : List A)
      → UniqueKeys rows
      → Member n rows
      → q (g n) ≡ true
      → ((r : A) → Member r rows → q (g r) ≡ true → id_of r ≡ id_of n)
      → select q (map g rows) ≡ g n ∷ []
  select-map_one q g n [] u m hit only = absurd m
  select-map_one q g n (r ∷ rows) u (inl e) hit only =
      let here : q (g r) ≡ true = subst (λ x. q (g x) ≡ true) e hit in
      let rest : select q (map g rows) ≡ [] =
        none_else q g r rows u.0 (λ x k h. only x (inr k) h ∙ ap id_of e) in
      rw (here, rest, e)
  select-map_one q g n (r ∷ rows) u (inr m) hit only = elim (Bool-cases (q (g r))) [
    | inl also ↦ absurd (
        cc (
          any-mem (λ x. id_of x == id_of r) n rows m
              ((==_iff (id_of n) (id_of r)).1 (sym (only r (inl refl) also))),
          u.0,
        ))
    | inr miss ↦ rw miss (select-map_one q g n rows u.1 m hit (λ x k. only x (inr k)))
  ]

  -- The lookup by primary key finds the row.
  pub select_by_key :
      (n : A) (rows : List A)
      → UniqueKeys rows
      → Member n rows
      → select (λ r. id_of r == id_of n) rows ≡ n ∷ []
  select_by_key n rows u m =
      subst (λ x. select (λ r. id_of r == id_of n) x ≡ n ∷ []) (List.map-id rows)
        (select-map_one (λ r. id_of r == id_of n) (λ r. r) n rows u m
          ((==_iff (id_of n) (id_of n)).1 refl) (λ r k h. (==_iff (id_of r) (id_of n)).0 h))

  -- So it does for a row that is the only answer to another query.
  pub select_again :
      (q : A → Bool) (n : A) (rows : List A)
      → UniqueKeys rows
      → select q rows ≡ n ∷ []
      → select (λ r. id_of r == id_of n) rows ≡ n ∷ []
  select_again q n rows u one =
      select_by_key n rows u ((mem-select q n rows).0 (rw one (inl refl))).0
