-- ===== src/Pagination/CursorLaws.antt =====
-- A cursor token of backend/src/common/pagination/utils/cursor.util.ts is read back as what it was made of.
use hub_assist.Common.{
  ℕ, zero, suc, ◌+◌, ◌%◌, ◌≡◌, ◌≢◌, ◌<◌, refl, sym, ap, ◌∙◌, some, List, [], ◌∷◌, ◌++◌, length, All,
  arith,
}
use hub_assist.Pagination.Cursor.{
  CursorPayload, Codec, CodecLaws, replicate, replace, strip_padding, pad, encode_cursor,
  decode_cursor,
}

abbrev url : List ℕ → List ℕ
url text = replace 47 95 (replace 43 45 text)

abbrev unurl : List ℕ → List ℕ
unurl text = replace 95 47 (replace 45 43 text)

abbrev IsPlain : ℕ → Type 0
IsPlain c = (c ≢ 45) × (c ≢ 95) × (c ≢ 61)

url-padding : (n : ℕ) → strip_padding (url (replicate n 61)) ≡ []
url-padding zero = refl
url-padding (suc n) = let ih = url-padding n in rw ih refl

strip_padding-url :
    (body : List ℕ) (n : ℕ)
    → All IsPlain body
    → strip_padding (url (body ++ replicate n 61)) ≡ url body
strip_padding-url [] n h = url-padding n
strip_padding-url (c ∷ cs) n h =
    let ih = strip_padding-url cs n h.1 in let here = h.0 in rw ih (ground arith)

unurl-url : (body : List ℕ) → All IsPlain body → unurl (url body) ≡ body
unurl-url [] h = refl
unurl-url (c ∷ cs) h =
    let ih = unurl-url cs h.1 in let here = h.0 in rw ih (ap (λ x. x ∷ cs) (ground arith))

-- The padding that is stripped is the one that is put back.
pad-length :
    (body : List ℕ) (padding : ℕ)
    → padding < 4
    → (length body + padding) % 4 ≡ 0
    → pad body ≡ body ++ replicate padding 61
pad-length body padding few whole = ap (λ n. body ++ replicate n 61) (omega arith)

-- A token comes back: `decodeCursor` of what `encodeCursor` writes is the payload, where base64 and JSON
-- do what they are documented to do.
pub decode_cursor-encode_cursor :
    (codec : Codec)
    → CodecLaws codec
    → (p : CursorPayload) → decode_cursor codec (encode_cursor codec p) ≡ some p
unfolding decode_cursor encode_cursor
decode_cursor-encode_cursor codec laws p =
    let text = codec.to_json p in
    let shape = laws.base64-IsBase64 text in
    let stripped : encode_cursor codec p ≡ url shape.body =
      rw shape.parts (strip_padding-url shape.body shape.padding shape.units) in
    let restored : pad (unurl (encode_cursor codec p)) ≡ codec.base64 text =
      rw (stripped, unurl-url shape.body shape.units)
        (pad-length shape.body shape.padding shape.few shape.whole ∙ sym shape.parts) in
    ap (λ t. codec.of_json (codec.of_base64 t)) restored
    ∙ ap codec.of_json (laws.of_base64-base64 text)
    ∙ laws.of_json-to_json p
