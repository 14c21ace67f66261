-- ===== src/Organizations/Slugs/Shape.antt =====
-- What a slug of `_slugify` in backend/app/modules/organizations/service.py looks like.
use ai_business_automation.Prelude.{
  ℕ, zero, suc, ◌≤◌, String, Bool, true, false, not, ◌&&◌, ◌≡◌, refl, arith,
}
use ai_business_automation.Organizations.Slugs.{
  count, has_slug_chars, is_dash, is_slug_char, dash_spaces, keep_slug_chars, starts_dashed,
  one_dash, strip_start, strip_end, first_chars, text_or, slugify,
}

-- Only characters of a slug, and no two dashes in a row.
abbrev pub is_plain : String → Bool
is_plain String.[] = true
is_plain (String.◌∷◌ c s) =
    let rest = is_plain s in is_slug_char c && not (is_dash c && starts_dashed s) && rest

has_slug_chars-keep_slug_chars : (s : String) → has_slug_chars (keep_slug_chars s) ≡ true
has_slug_chars-keep_slug_chars String.[] = refl
has_slug_chars-keep_slug_chars (String.◌∷◌ c s) = ground (arith, has_slug_chars-keep_slug_chars s)

starts_dashed-one_dash : (s : String) → starts_dashed (one_dash s) ≡ starts_dashed s
starts_dashed-one_dash String.[] = refl
starts_dashed-one_dash (String.◌∷◌ c s) = ground (arith, starts_dashed-one_dash s)

is_plain-one_dash : (s : String) → has_slug_chars s ≡ true → is_plain (one_dash s) ≡ true
is_plain-one_dash String.[] h = refl
is_plain-one_dash (String.◌∷◌ c s) h =
    ground (arith, h, is_plain-one_dash s, starts_dashed-one_dash s)

is_plain-strip_start : (s : String) → is_plain s ≡ true → is_plain (strip_start s) ≡ true
is_plain-strip_start String.[] h = refl
is_plain-strip_start (String.◌∷◌ c s) h = ground (arith, h, is_plain-strip_start s)

starts_dashed-strip_start : (s : String) → starts_dashed (strip_start s) ≡ false
starts_dashed-strip_start String.[] = refl
starts_dashed-strip_start (String.◌∷◌ c s) = ground (arith, starts_dashed-strip_start s)

starts_dashed-strip_end :
    (s : String) → starts_dashed s ≡ false → starts_dashed (strip_end s) ≡ false
starts_dashed-strip_end String.[] h = refl
starts_dashed-strip_end (String.◌∷◌ c s) h = ground (arith, h)

is_plain-strip_end : (s : String) → is_plain s ≡ true → is_plain (strip_end s) ≡ true
is_plain-strip_end String.[] h = refl
is_plain-strip_end (String.◌∷◌ c s) h =
    ground (arith, h, is_plain-strip_end s, starts_dashed-strip_end s)

starts_dashed-first_chars :
    (n : ℕ) (s : String) → starts_dashed s ≡ false → starts_dashed (first_chars n s) ≡ false
starts_dashed-first_chars zero s h = refl
starts_dashed-first_chars (suc n) String.[] h = refl
starts_dashed-first_chars (suc n) (String.◌∷◌ c s) h = h

is_plain-first_chars : (n : ℕ) (s : String) → is_plain s ≡ true → is_plain (first_chars n s) ≡ true
is_plain-first_chars zero s h = refl
is_plain-first_chars (suc n) String.[] h = refl
is_plain-first_chars (suc n) (String.◌∷◌ c s) h =
    ground (arith, h, is_plain-first_chars n s, starts_dashed-first_chars n s)

count-first_chars : (n : ℕ) (s : String) → count (first_chars n s) ≤ n
count-first_chars zero s = omega arith
count-first_chars (suc n) String.[] = omega arith
count-first_chars (suc n) (String.◌∷◌ c s) = let rest = count-first_chars n s in omega arith

-- What is said of a slug.
abbrev pub IsSlug : String → Type 0
IsSlug s = (is_plain s ≡ true) × (starts_dashed s ≡ false) × (1 ≤ count s) × (count s ≤ 100)

pub has_slug_chars_if_plain : (s : String) → is_plain s ≡ true → has_slug_chars s ≡ true
has_slug_chars_if_plain String.[] h = refl
has_slug_chars_if_plain (String.◌∷◌ c s) h = ground (arith, h, has_slug_chars_if_plain s)

text_or-IsSlug :
    (s : String)
    → is_plain s ≡ true
    → starts_dashed s ≡ false
    → count s ≤ 100
    → IsSlug (text_or s "org")
text_or-IsSlug String.[] plain start short = (refl, refl, omega arith, omega arith)
text_or-IsSlug (String.◌∷◌ c s) plain start short = (plain, start, omega arith, short)

-- Whatever the name and whatever lower case is, a slug has between 1 and 100 characters, all of
-- them small letters of ASCII, digits or dashes; it does not start with a dash and has no two
-- dashes in a row.
pub slugify-IsSlug : (lower : String → String) (name : String) → IsSlug (slugify lower name)
unfolding slugify
slugify-IsSlug lower name =
    let kept = keep_slug_chars (dash_spaces (lower name)) in
    let stripped = strip_end (strip_start (one_dash kept)) in
    let plain = is_plain-strip_end (strip_start (one_dash kept)) (
      is_plain-strip_start (one_dash kept)
        (is_plain-one_dash kept (has_slug_chars-keep_slug_chars (dash_spaces (lower name))))) in
    let start =
      starts_dashed-strip_end (strip_start (one_dash kept))
        (starts_dashed-strip_start (one_dash kept)) in
    text_or-IsSlug (first_chars 100 stripped) (is_plain-first_chars 100 stripped plain)
      (starts_dashed-first_chars 100 stripped start) (count-first_chars 100 stripped)
