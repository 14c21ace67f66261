-- ===== src/Auth/Schemas.antt =====
-- The checks of request bodies in backend/app/modules/auth/schemas.py. `strip` is `str.strip`, and
-- `is_digit` says which characters `\d` matches; a refused body is answered before the endpoint
-- runs.
use Prim.Native.Char.{Char, code}
use ai_business_automation.Prelude.{String, Bool, false, not, ◌&&◌, ◌||◌, ◌==◌, leb, if◌then◌else◌}
use ai_business_automation.Errors.{Result, ok, ◌>>=◌}
use ai_business_automation.Organizations.Slugs.{count}
use ai_business_automation.Organizations.Schemas.{refuse_if, name_not_empty}
use ai_business_automation.Auth.Accounts.{RegisterRequest}

abbrev pub has_char : (Char → Bool) → String → Bool
has_char q String.[] = false
has_char q (String.◌∷◌ c s) = let rest = has_char q s in q c || rest

abbrev pub is_newline : Char → Bool
is_newline c = code c == 10

abbrev pub is_small_letter : Char → Bool
is_small_letter c = leb b'a' (code c) && leb (code c) b'z'

abbrev pub is_capital : Char → Bool
is_capital c = leb b'A' (code c) && leb (code c) b'Z'

-- `$` matches at the end, and before a line feed at the end.
abbrev pub before_last_newline : String → String
before_last_newline String.[] = String.[]
before_last_newline (String.◌∷◌ c String.[]) =
    if is_newline c then String.[] else String.◌∷◌ c String.[]
before_last_newline (String.◌∷◌ c (String.◌∷◌ d s)) =
    String.◌∷◌ c (before_last_newline (String.◌∷◌ d s))

module _ (is_digit : Char → Bool) where
  -- `_PASSWORD_RE.match(v)`: the dot matches any character but a line feed.
  abbrev pub matches_password : String → Bool
  matches_password v =
      let line = before_last_newline v in
      not (has_char is_newline line)
      && leb 8 (count line)
      && has_char is_small_letter line
      && has_char is_capital line
      && has_char is_digit line

  unfoldable pub validate_password_strength : String → Result String
  validate_password_strength v = refuse_if (not (matches_password v)) v

  -- The body of a registration, as the endpoint gets it; the address is checked by a library.
  unfoldable pub register_body : (String → String) → RegisterRequest → Result RegisterRequest
  register_body strip body = do
    password ← validate_password_strength body.password
    full_name ← name_not_empty strip body.full_name
    ok (record body { password = password; full_name = full_name })
