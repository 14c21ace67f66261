-- ===== src/Auth/OneTime/Laws.antt =====
-- A one-time token of backend/app/modules/auth/service.py is not found again once it is used, and a user has at
-- most one that is unused.
use ai_business_automation.Prelude.{
  ℕ, ◌+◌, ◌≤◌, String, none, List, [], ◌∷◌, ◌++◌, ◌≡◌, refl, ap, ◌∙◌, subst, inl, inr, arith, ◌==◌,
  ltb, if◌then◌else◌, select, length, mem-select, Option-cases, Member, eq_iff, true,
}
use ai_business_automation.Errors.{
  ok, not_found, unprocessable, scalar_one_or_none, or_raise, >>=-eq-ok, or_raise-eq-ok,
  scalar-eq-some, raise_if->>,
}
use ai_business_automation.Database.{change_row, select-change_row_nil}
use ai_business_automation.Auth.Models.{TokenRow, row_key}
use ai_business_automation.Auth.OneTime.{
  is_unused, redeems, used, redeem, is_open_for, retire, reissue,
}

unused : (r : TokenRow) → is_unused r ≡ true → r.used_at ≡ none
unused r h = elim (Option-cases r.used_at) [
  | inl e ↦ e
  | inr (t, e) ↦ absurd (ground (arith, h, e))
]

pub redeem-eq-ok :
    (token_hash : String) (now : ℕ) (rows : List TokenRow) {r : TokenRow}
    → redeem token_hash now rows ≡ ok r
    → (select (redeems token_hash) rows ≡ r ∷ []) × (now ≤ r.expires_at)
unfolding redeem
redeem-eq-ok token_hash now rows {r} h =
    let (found, e, h1) = >>=-eq-ok (scalar_one_or_none (select (redeems token_hash) rows)) _ h in
    let (row, e1, h2) = >>=-eq-ok (or_raise found not_found) _ h1 in
    let (valid, h3) = raise_if->> (ltb row.expires_at now) unprocessable _ h2 in
    let at : row ≡ r = ground arith in
    let one =
      scalar-eq-some (select (redeems token_hash) rows)
        (e ∙ ap ok (or_raise-eq-ok found not_found e1)) in
    (one ∙ ap (λ x. x ∷ []) at, subst (λ (x : TokenRow). now ≤ x.expires_at) at (ground arith))

-- A token that was used is not found again.
pub redeems-used :
    (token_hash : String) (now : ℕ) (r : TokenRow) (rows : List TokenRow)
    → select (redeems token_hash) rows ≡ r ∷ []
    → select (redeems token_hash) (change_row row_key r.id (used now) rows) ≡ []
redeems-used token_hash now r rows one =
    select-change_row_nil row_key (redeems token_hash) (used now) r rows
      (λ x m o. elim (rw one at ((mem-select (redeems token_hash) x rows).1 (m, o))) [
        | inl e ↦ e
        | inr no_more ↦ absurd no_more
      ])
      (λ x. ground arith)

-- The row that a token finds.
pub redeems-row :
    (token_hash : String) (rows : List TokenRow) {r : TokenRow}
    → select (redeems token_hash) rows ≡ r ∷ []
    → Member r rows × (r.token_hash ≡ token_hash) × (r.used_at ≡ none)
redeems-row token_hash rows {r} one =
    let (m, h) = (mem-select (redeems token_hash) r rows).0 (rw one (inl refl)) in
    (m, ground (arith, h, eq_iff r.token_hash token_hash), unused r (ground (arith, h)))

-- How many unused tokens a user has.
abbrev pub count_open : ℕ → List TokenRow → ℕ
count_open user_id rows = length (select (is_open_for user_id) rows)

retire-other :
    (now user_id u : ℕ) (rows : List TokenRow)
    → count_open u (retire now user_id rows) ≡ (if user_id == u then 0 else count_open u rows)
unfolding retire
retire-other now user_id u [] = ground arith
retire-other now user_id u (r ∷ rows) = ground (arith, retire-other now user_id u rows)

count_open-snoc :
    (u : ℕ) (rows : List TokenRow) (r : TokenRow)
    → count_open u (rows ++ r ∷ []) ≡ count_open u rows + (if is_open_for u r then 1 else 0)
count_open-snoc u [] r = ground arith
count_open-snoc u (x ∷ rows) r = ground (arith, count_open-snoc u rows r)

-- After a token was issued it is the one unused token of its user, and no other user has one more.
pub count_open-reissue :
    (now : ℕ) (new : TokenRow) (rows : List TokenRow) {rows' : List TokenRow}
    → new.used_at ≡ none
    → reissue now new rows ≡ ok rows'
    → (u : ℕ) → count_open u rows' ≡ (if new.user_id == u then 1 else count_open u rows)
unfolding reissue
count_open-reissue now new rows {rows'} fresh h u =
    let same : rows' ≡ retire now new.user_id rows ++ new ∷ [] = ground arith in
    rw same (
      ground (
        arith,
        count_open-snoc u (retire now new.user_id rows) new,
        retire-other now new.user_id u rows,
      ))
