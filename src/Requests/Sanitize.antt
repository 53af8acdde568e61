-- ===== src/Requests/Sanitize.antt =====
-- backend/src/common/pipes/sanitization.pipe.ts and backend/src/common/transformers/
-- sanitize-string.transformer.ts: what becomes of the body, query and parameters of a request. Texts are
-- lists of UTF-16 code units. `nfc` is `normalize('NFC')`, and `marked` tells the keys of the class that
-- `@NoSanitize()` marks. The warnings in the log are left out.
use hub_assist.Common.{
  ℕ, Bool, true, false, ◌&&◌, Option, none, some, [], ◌∷◌, ◌++◌, ◌==◌, if◌then◌else◌, Text,
  is_space,
}
use hub_assist.Pagination.Cursor.{is_empty}

-- The values that a request holds.
mutual
  pub data Json : Type 0 where
    null : Json
    boolean : Bool → Json
    number : ℕ → Json
    string : Text → Json
    array : Items → Json
    object : Fields → Json

  pub data Items : Type 0 where
    no_items : Items
    item : Json → Items → Items

  pub data Fields : Type 0 where
    no_fields : Fields
    field : Text → Json → Fields → Fields

-- `text.trim()`.
abbrev pub trim_start : Text → Text
trim_start [] = []
trim_start (c ∷ cs) = let rest = trim_start cs in if is_space c then rest else c ∷ cs

abbrev pub trim_end : Text → Text
trim_end [] = []
trim_end (c ∷ cs) = let rest = trim_end cs in if is_space c && is_empty rest then [] else c ∷ rest

abbrev pub trim : Text → Text
trim text = trim_end (trim_start text)

-- `text.replace(/<[^>]*>/g, '')`: `held` is what has been read since a `<` that no `>` has closed yet.
unfoldable pub strip_from : Option Text → Text → Text
strip_from none [] = []
strip_from none (c ∷ cs) = if c == 60 then strip_from (some (c ∷ [])) cs else c ∷ strip_from none cs
strip_from (some held) [] = held
strip_from (some held) (c ∷ cs) =
    if c == 62 then strip_from none cs else strip_from (some (held ++ c ∷ [])) cs

abbrev pub strip_tags : Text → Text
strip_tags text = strip_from none text

abbrev pub unmarked : Text → Bool
unmarked key = false

module _ (nfc : Text → Text) where
  unfoldable pub sanitize_string_value : Text → Text
  unfolding strip_from
  sanitize_string_value value = nfc (strip_tags (trim value))

  -- `sanitizeObject`; the objects inside one have no class.
  unfoldable mutual
    pub sanitize_value : Bool → Json → Json
    sanitize_value skipped (object fields) = object (sanitize_object unmarked fields)
    sanitize_value true (string text) = string text
    sanitize_value false (string text) = string (sanitize_string_value text)
    sanitize_value skipped null = null
    sanitize_value skipped (boolean b) = boolean b
    sanitize_value skipped (number n) = number n
    sanitize_value skipped (array items) = array items

    pub sanitize_object : (Text → Bool) → Fields → Fields
    sanitize_object marked no_fields = no_fields
    sanitize_object marked (field key value fields) =
        field key (sanitize_value (marked key) value) (sanitize_object marked fields)

  -- `transform`.
  unfoldable pub transform : (Text → Bool) → Json → Json
  unfolding sanitize_value
  transform marked (object fields) = object (sanitize_object marked fields)
  transform marked value = value
