-- ===== src/Errors.antt =====
-- backend/app/core/exceptions.py: the application's exceptions as values, and the status of the
-- answer that the handlers of `main.py` make of each. The texts of the messages are left out.
use ai_business_automation.Prelude.{
  ℕ, String, Option, none, some, List, [], ◌∷◌, Bool, true, false, ◌≡◌, refl, arith,
}

-- `details` of an `AppException` holds the validator's issues, where there are any.
pub record Issue : Type 0 where
  pub node_id : String
  pub message : String

pub record AppException : Type 0 where
  pub status_code : ℕ
  pub error_code : String
  pub details : List Issue

abbrev pub unauthorized : String → AppException
unauthorized code = record { status_code = 401; error_code = code; details = [] }

abbrev pub forbidden : String → AppException
forbidden code = record { status_code = 403; error_code = code; details = [] }

abbrev pub not_found : AppException
not_found = record { status_code = 404; error_code = "NOT_FOUND"; details = [] }

abbrev pub conflict : AppException
conflict = record { status_code = 409; error_code = "CONFLICT"; details = [] }

abbrev pub unprocessable : AppException
unprocessable = record { status_code = 422; error_code = "VALIDATION_ERROR"; details = [] }

abbrev pub rate_limited : AppException
rate_limited = record { status_code = 429; error_code = "RATE_LIMITED"; details = [] }

-- What can leave a service function other than by a return: an `AppException`, a refused request
-- body, or any other exception, such as a violated constraint of the database.
pub data Error : Type 0 where
  app : AppException → Error
  bad_request : Error
  uncaught : Error

-- `app_exception_handler`, `validation_exception_handler`, `generic_exception_handler`
unfoldable pub response_status : Error → ℕ
response_status (app e) = e.status_code
response_status bad_request = 422
response_status uncaught = 500

-- How a call ends: it raises, or it returns.
pub data Result {ℓ} (X : Type ℓ) : Type ℓ where
  err : Error → Result X
  ok : X → Result X

infixl 5 ◌>>=◌
-- What follows a call is not reached when the call raises.
abbrev pub ◌>>=◌ {ℓ κ} : {X : Type ℓ} {Y : Type κ} → Result X → (X → Result Y) → Result Y
err raised >>= next = err raised
ok x >>= next = next x

infixl 5 ◌>>◌
-- A statement, then what follows it.
abbrev pub ◌>>◌ {κ} : {Y : Type κ} → Result (Unit {0}) → Result Y → Result Y
statement >> rest = statement >>= λ unit. rest

-- `if b: raise e`
abbrev pub raise_if : Bool → AppException → Result (Unit {0})
raise_if true e = err (app e)
raise_if false e = ok tt

-- SQLAlchemy's `scalar_one_or_none()` on the rows of a query: more than one row is an exception
-- (`MultipleResultsFound`) that no caller catches.
unfoldable pub scalar_one_or_none {ℓ} : {A : Type ℓ} → List A → Result (Option A)
scalar_one_or_none [] = ok none
scalar_one_or_none (x ∷ []) = ok (some x)
scalar_one_or_none (x ∷ y ∷ xs) = err uncaught

-- `if found is None: raise e`
abbrev pub or_raise {ℓ} : {A : Type ℓ} → Option A → AppException → Result A
or_raise none e = err (app e)
or_raise (some a) e = ok a

-- A chain that returns has returned at each step.
pub >>=-eq-ok {ℓ κ} :
    {X : Type ℓ} {Y : Type κ} (call : Result X) (next : X → Result Y) {y : Y}
    → (call >>= next) ≡ ok y
    → (x : X) × (call ≡ ok x) × (next x ≡ ok y)
>>=-eq-ok (err raised) next returned = cc
>>=-eq-ok (ok x) next returned = (x, refl, returned)

pub or_raise-eq-ok {ℓ} :
    {A : Type ℓ} (o : Option A) (e : AppException) {a : A} → or_raise o e ≡ ok a → o ≡ some a
or_raise-eq-ok none e h = cc
or_raise-eq-ok (some b) e h = ground arith

pub scalar-eq-some {ℓ} :
    {A : Type ℓ} (xs : List A) {a : A} → scalar_one_or_none xs ≡ ok (some a) → xs ≡ a ∷ []
unfolding scalar_one_or_none
scalar-eq-some [] h = cc
scalar-eq-some (x ∷ []) h = ground arith
scalar-eq-some (x ∷ y ∷ xs) h = cc

pub scalar-eq-none {ℓ} : {A : Type ℓ} (xs : List A) → scalar_one_or_none xs ≡ ok none → xs ≡ []
unfolding scalar_one_or_none
scalar-eq-none [] h = refl
scalar-eq-none (x ∷ []) h = cc
scalar-eq-none (x ∷ y ∷ xs) h = cc

-- A chain past `if b: raise e` has found `b` false.
pub raise_if->> {ℓ} :
    {B : Type ℓ} (b : Bool) (e : AppException) (k : Result B) {r : B}
    → (raise_if b e >> k) ≡ ok r
    → (b ≡ false) × (k ≡ ok r)
raise_if->> true e k h = cc
raise_if->> false e k h = (refl, h)

-- A call of which only the second part of the result is kept.
pub returned_second :
    {A B : Type 0} (call : Result (A × B)) {b : B}
    → (call >>= λ (r : A × B). ok r.1) ≡ ok b
    → (a : A) × (call ≡ ok (a, b))
returned_second call h = let (r, e, k) = >>=-eq-ok call _ h in (r.0, ground arith)
