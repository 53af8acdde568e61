-- ===== src/Frontend/FiltersTests.antt =====
-- A status and a page number in the address, by frontend/src/hooks/useFiltersWithUrl.ts.
use hub_assist.Common.{
  ℕ, ◌≡◌, refl, true, false, some, none, Option, [], ◌∷◌, Text, text_eq, text_eq-false, Bool,
}
use mathlib.Core.List.{Memᴰ}
use hub_assist.Frontend.Filters.{
  FilterValue, text, number, Filters, Schema, Params, Query, enum_codec, number_codec, or_default,
  set_filters, filters_at,
}
use hub_assist.Frontend.FiltersLaws.{
  IsValue, HasOwnKeys, number_codec-IsValue, filters_at-set_filters,
}

-- A number of one digit.
abbrev show : ℕ → Text
show n = n ∷ []

abbrev read : Text → Option ℕ
read [] = none
read (c ∷ cs) = some c

-- "s" and "p"
abbrev schema : Schema
schema =
    (115 ∷ [], enum_codec show read ((97 ∷ []) ∷ (98 ∷ []) ∷ []))
    ∷ (112 ∷ [], number_codec show read)
    ∷ []

abbrev defaults : Filters
defaults key = some (number 1)

abbrev next : Filters
next key = if_page (text_eq key (112 ∷ []))
  where
    if_page : Bool → Option FilterValue
    if_page true = some (number 7)
    if_page false = none

abbrev plain : Query Params
plain = record { to_query = λ params. params; of_query = λ params. params }

own_keys : HasOwnKeys schema
own_keys = ((text_eq-false (115 ∷ []) (112 ∷ []) refl, tt), (tt, tt))

seven_read : (v : FilterValue) → next (112 ∷ []) ≡ some v → IsValue (number_codec show read) v
seven_read (text t) e = cc
seven_read (number n) e = number_codec-IsValue show read n n [] refl refl
seven_read v e = cc

filters_at-set_filters_example :
    filters_at plain defaults schema (set_filters plain defaults schema next) (112 ∷ [])
    ≡ or_default (next (112 ∷ [])) (defaults (112 ∷ []))
filters_at-set_filters_example =
    filters_at-set_filters defaults next plain schema (112 ∷ []) (number_codec show read)
      (λ params. refl) own_keys (Memᴰ.tail (Memᴰ.head refl)) seven_read
