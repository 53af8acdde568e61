-- ===== src/Requests/SanitizeTests.antt =====
-- The pipe of backend/src/common/pipes on a body with a marked text, a nested one and an array.
use hub_assist.Common.{◌≡◌, refl, Bool, [], ◌∷◌, Text, text_eq}
use hub_assist.Requests.Sanitize.{
  string, array, object, item, no_items, field, no_fields, Fields, transform, strip_from,
  sanitize_string_value,
}
use hub_assist.Requests.SanitizeLaws.{Sub, empty, keep, angles, AreClean, transform-AreClean}

Sub_refl : (text : Text) → Sub text text
Sub_refl [] = empty
Sub_refl (c ∷ cs) = keep c cs cs (Sub_refl cs)

abbrev same : Text → Text
same text = text

-- "p"
abbrev password : Text
password = 112 ∷ []

abbrev is_password : Text → Bool
is_password key = text_eq key password

-- " <b>x < y"
abbrev raw : Text
raw = 32 ∷ 60 ∷ 98 ∷ 62 ∷ 120 ∷ 32 ∷ 60 ∷ 32 ∷ 121 ∷ []

-- "x < y"
abbrev clean : Text
clean = 120 ∷ 32 ∷ 60 ∷ 32 ∷ 121 ∷ []

abbrev body : Fields
body = field password (string raw) (
    field (97 ∷ []) (array (item (string raw) no_items))
      (field (98 ∷ []) (object (field password (string raw) no_fields)) no_fields))

body_after :
    transform same is_password (object body)
    ≡ object (
        field password (string raw) (
          field
            (97 ∷ [])
            (array (item (string raw) no_items))
            (field (98 ∷ []) (object (field password (string clean) no_fields)) no_fields)))
unfolding transform sanitize_string_value strip_from
body_after = refl

transform-AreClean_example :
    (after : Fields) × (transform same is_password (object body) ≡ object after)
    × AreClean is_password after
transform-AreClean_example =
    transform-AreClean same (λ text. Sub_refl (angles text)) is_password body
