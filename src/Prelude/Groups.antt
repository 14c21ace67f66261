-- ===== src/Prelude/Groups.antt =====
-- A Python `dict[str, list[str]]`, in insertion order.
use ai_business_automation.Prelude.Tests.{if◌then◌else◌}
use ai_business_automation.Prelude.Lists.{select}
use Prim.Native.String.{String}
use mathlib.Core.Path.{◌≡◌, refl}
use mathlib.Core.List.{List, [], ◌∷◌, ◌++◌, map, append-nil, append_assoc}
use native.Mathlib.Omega.{arith}
use text.Mathlib.Text.{◌==◌ as str_eq}
use text.Mathlib.TextEquality.{eq_iff}

abbrev pub Groups : Type 0
Groups = List (String × List String)

-- `d.get(k, [])`
unfoldable pub lookup : String → Groups → List String
lookup k [] = []
lookup k ((j, vs) ∷ d) = if str_eq j k then vs else lookup k d

-- `d[k] = []`
unfoldable pub put_empty : String → Groups → Groups
put_empty k [] = (k, []) ∷ []
put_empty k ((j, vs) ∷ d) = if str_eq j k then (k, []) ∷ d else (j, vs) ∷ put_empty k d

-- `d.setdefault(k, []).append(v)`
unfoldable pub append_at : String → String → Groups → Groups
append_at k v [] = (k, v ∷ []) ∷ []
append_at k v ((j, vs) ∷ d) =
    if str_eq j k then (k, vs ++ v ∷ []) ∷ d else (j, vs) ∷ append_at k v d

pub lookup-append_at :
    (j k v : String) (d : Groups)
    → lookup j (append_at k v d) ≡ (if str_eq k j then lookup j d ++ v ∷ [] else lookup j d)
unfolding lookup append_at
lookup-append_at j k v [] = refl
lookup-append_at j k v ((i, vs) ∷ d) =
    ground (arith, eq_iff k j, eq_iff i k, eq_iff i j, lookup-append_at j k v d)

pub lookup-put_empty :
    (j k : String) (d : Groups) → lookup j (put_empty k d) ≡ (if str_eq k j then [] else lookup j d)
unfolding lookup put_empty
lookup-put_empty j k [] = ground arith
lookup-put_empty j k ((i, vs) ∷ d) =
    ground (arith, eq_iff k j, eq_iff i k, eq_iff i j, lookup-put_empty j k d)

module _ {A : Type 0} (key value : A → String) where
  -- `for a in items: d.setdefault(key(a), []).append(value(a))`
  unfoldable pub group : List A → Groups → Groups
  group [] d = d
  group (a ∷ as_) d = group as_ (append_at (key a) (value a) d)

  -- Each key is mapped to the values of its items, in the order of the items.
  pub lookup-group :
      (j : String) (items : List A) (d : Groups)
      → lookup j (group items d) ≡ lookup j d ++ map value (select (λ a. str_eq (key a) j) items)
  unfolding group
  lookup-group j [] d = rw append-nil
  lookup-group j (a ∷ items) d = ground (
    arith,
    lookup-group j items (append_at (key a) (value a) d),
    lookup-append_at j (key a) (value a) d,
    append_assoc (lookup j d) (value a ∷ []) (map value (select (λ b. str_eq (key b) j) items)),
  )

-- A dict of empty lists has nothing under any key.
module _ {A : Type 0} (key : A → String) where
  -- `{key(a): [] for a in items}`
  unfoldable pub empty_groups : List A → Groups → Groups
  empty_groups [] d = d
  empty_groups (a ∷ items) d = empty_groups items (put_empty (key a) d)

  pub lookup-empty_groups :
      (j : String) (items : List A) (d : Groups)
      → lookup j d ≡ []
      → lookup j (empty_groups items d) ≡ []
  unfolding empty_groups
  lookup-empty_groups j [] d h = h
  lookup-empty_groups j (a ∷ items) d h =
      lookup-empty_groups j items (put_empty (key a) d)
        (ground (arith, lookup-put_empty j (key a) d))
