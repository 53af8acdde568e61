-- ===== src/Requests/SanitizeLaws.antt =====
-- Tags in what backend/src/common/pipes/sanitization.pipe.ts hands on.
use hub_assist.Common.{
  ℕ, ◌≡◌, ◌≢◌, refl, Bool, true, false, ◌||◌, none, some, [], ◌∷◌, ◌++◌, ◌==◌, if◌then◌else◌, Text,
  filter, All, arith, Bool-cases, inl, inr,
}
use hub_assist.Requests.Sanitize.{
  Json, null, boolean, number, string, array, object, Fields, no_fields, field, trim, strip_from,
  strip_tags, sanitize_string_value, sanitize_value, sanitize_object, transform, unmarked,
}

-- No `>` stands behind a `<`.
abbrev pub NoTag : Text → Type 0
NoTag [] = Unit
NoTag (c ∷ cs) = (c ≡ 60 → All (λ d. d ≢ 62) cs) × NoTag cs

NoTag-unclosed : (text : Text) → All (λ d. d ≢ 62) text → NoTag text
NoTag-unclosed [] h = tt
NoTag-unclosed (c ∷ cs) h = (λ e. h.1, NoTag-unclosed cs h.1)

All-snoc :
    (text : Text) (c : ℕ) → All (λ d. d ≢ 62) text → c ≢ 62 → All (λ d. d ≢ 62) (text ++ c ∷ [])
All-snoc [] c h k = (k, tt)
All-snoc (d ∷ ds) c h k = (h.0, All-snoc ds c h.1 k)

other : (c d : ℕ) → (c == d) ≡ false → c ≢ d
other c d h e = absurd (ground (arith, h, e))

-- Outside a tag, and in what may be one.
abbrev Strips : Text → Type 0
Strips text =
    NoTag (strip_from none text)
    × ((held : Text) → All (λ d. d ≢ 62) held → NoTag (strip_from (some held) text))

strip_from-NoTag : (text : Text) → Strips text
unfolding strip_from
strip_from-NoTag [] = (tt, λ held h. NoTag-unclosed held h)
strip_from-NoTag (c ∷ cs) =
    let ih = strip_from-NoTag cs in
    (outside (c == 60) refl ih, λ held h. inside (c == 62) refl held h ih)
  where
    outside :
        (b : Bool)
        → (c == 60) ≡ b
        → Strips cs
        → NoTag (if b then strip_from (some (c ∷ [])) cs else c ∷ strip_from none cs)
    outside true e ih = ih.1 (c ∷ []) ((λ f. absurd (ground (arith, e, f))), tt)
    outside false e ih = ((λ f. absurd (other c 60 e f)), ih.0)

    inside :
        (b : Bool)
        → (c == 62) ≡ b
        → (held : Text) → All (λ d. d ≢ 62) held
        → Strips cs
        → NoTag (if b then strip_from none cs else strip_from (some (held ++ c ∷ [])) cs)
    inside true e held h ih = ih.0
    inside false e held h ih = ih.1 (held ++ c ∷ []) (All-snoc held c h (other c 62 e))

-- A text whose units stand in another one, in the same order.
pub data Sub : Text → Text → Type 0 where
  empty : Sub [] []
  keep : (c : ℕ) (s t : Text) → Sub s t → Sub (c ∷ s) (c ∷ t)
  skip : (c : ℕ) (s t : Text) → Sub s t → Sub s (c ∷ t)

-- The units `<` and `>` of a text.
abbrev pub angles : Text → Text
angles text = filter (λ c. c == 60 || c == 62) text

Sub-All : (s t : Text) → Sub s t → All (λ d. d ≢ 62) t → All (λ d. d ≢ 62) s
Sub-All s t empty h = tt
Sub-All s t (keep c a b u) h = (h.0, Sub-All a b u h.1)
Sub-All s t (skip c a b u) h = Sub-All s b u h.1

Sub-NoTag : (s t : Text) → Sub s t → NoTag t → NoTag s
Sub-NoTag s t empty h = tt
Sub-NoTag s t (keep c a b u) h = (λ e. Sub-All a b u (h.0 e), Sub-NoTag a b u h.1)
Sub-NoTag s t (skip c a b u) h = Sub-NoTag s b u h.1

angles-Sub : (text : Text) → Sub (angles text) text
angles-Sub [] = empty
angles-Sub (c ∷ cs) = elim (Bool-cases (c == 60 || c == 62)) [
  | inl e ↦ rw e (keep c (angles cs) cs (angles-Sub cs))
  | inr e ↦ rw e (skip c (angles cs) cs (angles-Sub cs))
]

All-angles : (text : Text) → All (λ d. d ≢ 62) (angles text) → All (λ d. d ≢ 62) text
All-angles [] h = tt
All-angles (c ∷ cs) h = of_angle (c == 60 || c == 62) refl (All-angles cs) h
  where
    of_angle :
        (b : Bool)
        → (c == 60 || c == 62) ≡ b
        → (All (λ d. d ≢ 62) (angles cs) → All (λ d. d ≢ 62) cs)
        → All (λ d. d ≢ 62) (if b then c ∷ angles cs else angles cs)
        → All (λ d. d ≢ 62) (c ∷ cs)
    of_angle true e ih h = (h.0, ih h.1)
    of_angle false e ih h = ((λ f. absurd (ground (arith, e, f))), ih h)

NoTag-angles : (text : Text) → NoTag (angles text) → NoTag text
NoTag-angles [] h = tt
NoTag-angles (c ∷ cs) h = of_angle (c == 60 || c == 62) refl (NoTag-angles cs) h
  where
    of_angle :
        (b : Bool)
        → (c == 60 || c == 62) ≡ b
        → (NoTag (angles cs) → NoTag cs)
        → NoTag (if b then c ∷ angles cs else angles cs)
        → NoTag (c ∷ cs)
    of_angle true e ih h = ((λ f. All-angles cs (h.0 f)), ih h.1)
    of_angle false e ih h = ((λ f. absurd (ground (arith, e, f))), ih h)

module _ (nfc : Text → Text) (nfc-Sub : (text : Text) → Sub (angles (nfc text)) (angles text)) where
  sanitize_string_value-NoTag : (value : Text) → NoTag (sanitize_string_value nfc value)
  unfolding sanitize_string_value
  sanitize_string_value-NoTag value =
      let stripped = (strip_from-NoTag (trim value)).0 in
      let fewer =
        Sub-NoTag (angles (strip_tags (trim value))) (strip_tags (trim value))
          (angles-Sub (strip_tags (trim value))) stripped in
      NoTag-angles (nfc (strip_tags (trim value))) (
        Sub-NoTag (angles (nfc (strip_tags (trim value)))) (angles (strip_tags (trim value)))
          (nfc-Sub (strip_tags (trim value))) fewer)

-- The texts that the pipe looks at have no tag: those of an object's fields that are not marked, and all
-- of the objects inside it.
unfoldable mutual
  pub IsClean : Bool → Json → Type 0
  IsClean skipped (object fields) = AreClean unmarked fields
  IsClean true (string text) = Unit
  IsClean false (string text) = NoTag text
  IsClean skipped null = Unit
  IsClean skipped (boolean b) = Unit
  IsClean skipped (number n) = Unit
  IsClean skipped (array items) = Unit

  pub AreClean : (Text → Bool) → Fields → Type 0
  AreClean marked no_fields = Unit
  AreClean marked (field key value fields) = IsClean (marked key) value × AreClean marked fields

module _ (nfc : Text → Text) (nfc-Sub : (text : Text) → Sub (angles (nfc text)) (angles text)) where
  mutual
    unfolding sanitize_value IsClean

    sanitize_value-IsClean :
        (skipped : Bool) (value : Json) → IsClean skipped (sanitize_value nfc skipped value)
    sanitize_value-IsClean skipped (object fields) = sanitize_object-AreClean unmarked fields
    sanitize_value-IsClean true (string text) = tt
    sanitize_value-IsClean false (string text) = sanitize_string_value-NoTag nfc nfc-Sub text
    sanitize_value-IsClean skipped null = tt
    sanitize_value-IsClean skipped (boolean b) = tt
    sanitize_value-IsClean skipped (number n) = tt
    sanitize_value-IsClean skipped (array items) = tt

    sanitize_object-AreClean :
        (marked : Text → Bool) (fields : Fields)
        → AreClean marked (sanitize_object nfc marked fields)
    sanitize_object-AreClean marked no_fields = tt
    sanitize_object-AreClean marked (field key value fields) =
        (sanitize_value-IsClean (marked key) value, sanitize_object-AreClean marked fields)

  -- Of an object that a request brings, the pipe hands on an object in which no text has a `>` behind a
  -- `<`, at any depth of objects within objects, other than the marked texts of the object itself and the
  -- items of arrays, where normalising brings no new `<` or `>` and keeps the order of those there are.
  pub transform-AreClean :
      (marked : Text → Bool) (fields : Fields)
      → (after : Fields) × (transform nfc marked (object fields) ≡ object after)
        × AreClean marked after
  unfolding transform
  transform-AreClean marked fields =
      (sanitize_object nfc marked fields, refl, sanitize_object-AreClean marked fields)
