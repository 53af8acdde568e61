-- ===== src/Pagination/Cursor.antt =====
-- backend/src/common/pagination/utils/cursor.util.ts. A string is the list of its UTF-16 code units; a
-- timestamp is its milliseconds since 1970, which an ISO 8601 text with three decimals gives exactly; an
-- id is only compared.
use hub_assist.Common.{
  ℕ, zero, suc, ◌+◌, ◌-◌, ◌%◌, ◌≡◌, ◌≢◌, ◌<◌, Bool, true, false, ◌&&◌, Option, some, List, [], ◌∷◌,
  ◌++◌, ◌==◌, if◌then◌else◌, length, All,
}

pub record CursorPayload : Type 0 where
  pub timestamp : ℕ
  pub id : ℕ

-- What JavaScript supplies: `JSON.stringify` of a payload, and `Buffer` from and to base64. `of_json` is
-- `JSON.parse` with the checks of the fields: none where one throws.
pub record Codec : Type 0 where
  pub to_json : CursorPayload → List ℕ
  pub of_json : List ℕ → Option CursorPayload
  pub base64 : List ℕ → List ℕ
  pub of_base64 : List ℕ → List ℕ

abbrev pub replicate : ℕ → ℕ → List ℕ
replicate zero c = []
replicate (suc n) c = c ∷ replicate n c

-- `text.replace(/a/g, 'b')` of one unit.
abbrev pub replace : ℕ → ℕ → List ℕ → List ℕ
replace a b [] = []
replace a b (c ∷ cs) = (if c == a then b else c) ∷ replace a b cs

abbrev pub is_empty : List ℕ → Bool
is_empty [] = true
is_empty (c ∷ cs) = false

-- `text.replace(/=+$/, '')`.
abbrev pub strip_padding : List ℕ → List ℕ
strip_padding [] = []
strip_padding (c ∷ cs) =
    let rest = strip_padding cs in if c == 61 && is_empty rest then [] else c ∷ rest

-- `base64.padEnd(base64.length + ((4 - (base64.length % 4)) % 4), '=')`.
abbrev pub pad : List ℕ → List ℕ
pad text = text ++ replicate ((4 - length text % 4) % 4) 61

unfoldable pub encode_cursor : Codec → CursorPayload → List ℕ
encode_cursor codec payload =
    strip_padding (replace 47 95 (replace 43 45 (codec.base64 (codec.to_json payload))))

unfoldable pub decode_cursor : Codec → List ℕ → Option CursorPayload
decode_cursor codec cursor =
    codec.of_json (codec.of_base64 (pad (replace 95 47 (replace 45 43 cursor))))

-- A text of base64: units other than '-', '_' and '=', and then less than four '=', which make the length
-- a multiple of four.
pub record IsBase64 (text : List ℕ) : Type 0 where
  pub body : List ℕ
  pub padding : ℕ
  pub parts : text ≡ body ++ replicate padding 61
  pub units : All (λ c. (c ≢ 45) × (c ≢ 95) × (c ≢ 61)) body
  pub few : padding < 4
  pub whole : (length body + padding) % 4 ≡ 0

pub record CodecLaws (codec : Codec) : Type 0 where
  pub of_json-to_json : (p : CursorPayload) → codec.of_json (codec.to_json p) ≡ some p
  pub of_base64-base64 : (text : List ℕ) → codec.of_base64 (codec.base64 text) ≡ text
  pub base64-IsBase64 : (text : List ℕ) → IsBase64 (codec.base64 text)
