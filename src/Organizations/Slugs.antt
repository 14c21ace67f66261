-- ===== src/Organizations/Slugs.antt =====
-- `_slugify` of backend/app/modules/organizations/service.py, character by character; `lower` is
-- `str.lower`.
pub mod Shape
use Prim.Native.Char.{Char, code}
use Prim.Native.String
use ai_business_automation.Prelude.{
  ℕ, zero, suc, ◌+◌, String, Bool, true, false, ◌&&◌, ◌||◌, ◌==◌, leb, if◌then◌else◌,
}

abbrev pub is_dash : Char → Bool
is_dash c = code c == b'-'

-- The number of characters.
abbrev pub count : String → ℕ
count String.[] = 0
count (String.◌∷◌ c s) = 1 + count s

-- What `_SLUG_STRIP_RE` keeps.
abbrev pub is_slug_char : Char → Bool
is_slug_char c =
    (leb b'a' (code c) && leb (code c) b'z')
    || (leb b'0' (code c) && leb (code c) b'9')
    || is_dash c

-- Only such characters.
abbrev pub has_slug_chars : String → Bool
has_slug_chars String.[] = true
has_slug_chars (String.◌∷◌ c s) = let rest = has_slug_chars s in is_slug_char c && rest

-- `.replace(" ", "-")`
abbrev pub dash_spaces : String → String
dash_spaces String.[] = String.[]
dash_spaces (String.◌∷◌ c s) =
    let rest = dash_spaces s in if code c == b' ' then String.◌∷◌ "-" rest else String.◌∷◌ c rest

-- `_SLUG_STRIP_RE.sub("", slug)`
abbrev pub keep_slug_chars : String → String
keep_slug_chars String.[] = String.[]
keep_slug_chars (String.◌∷◌ c s) =
    let rest = keep_slug_chars s in if is_slug_char c then String.◌∷◌ c rest else rest

abbrev pub starts_dashed : String → Bool
starts_dashed String.[] = false
starts_dashed (String.◌∷◌ c s) = is_dash c

-- `_MULTI_DASH_RE.sub("-", slug)`
abbrev pub one_dash : String → String
one_dash String.[] = String.[]
one_dash (String.◌∷◌ c s) =
    let rest = one_dash s in if is_dash c && starts_dashed s then rest else String.◌∷◌ c rest

-- The two ends of `.strip("-")`
abbrev pub strip_start : String → String
strip_start String.[] = String.[]
strip_start (String.◌∷◌ c s) =
    let rest = strip_start s in if is_dash c then rest else String.◌∷◌ c s

abbrev pub is_empty : String → Bool
is_empty String.[] = true
is_empty (String.◌∷◌ c s) = false

abbrev pub strip_end : String → String
strip_end String.[] = String.[]
strip_end (String.◌∷◌ c s) =
    let rest = strip_end s in if is_dash c && is_empty rest then String.[] else String.◌∷◌ c rest

-- `text[:n]`
abbrev pub first_chars : ℕ → String → String
first_chars zero s = String.[]
first_chars (suc n) String.[] = String.[]
first_chars (suc n) (String.◌∷◌ c s) = String.◌∷◌ c (first_chars n s)

-- `text or other`
abbrev pub text_or : String → String → String
text_or String.[] other = other
text_or (String.◌∷◌ c s) other = String.◌∷◌ c s

unfoldable pub slugify : (String → String) → String → String
slugify lower name =
    text_or
      (first_chars 100
        (strip_end (strip_start (one_dash (keep_slug_chars (dash_spaces (lower name)))))))
      "org"
