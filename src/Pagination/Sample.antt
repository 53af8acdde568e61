-- ===== src/Pagination/Sample.antt =====
-- One codec that keeps the laws of backend/src/common/pagination/utils/cursor.util.ts's parameters: each
-- unit takes four, and a payload is written as its two numbers.
use hub_assist.Common.{
  ℕ, ◌+◌, ◌-◌, ◌%◌, ◌≡◌, ◌≢◌, refl, ap, none, some, Option, List, [], ◌∷◌, ◌++◌, arith, length, All,
}
use hub_assist.Pagination.Cursor.{CursorPayload, Codec, CodecLaws, IsBase64}

unfoldable pub fours : List ℕ → List ℕ
fours [] = []
fours (c ∷ cs) = (c + 1000) ∷ 65 ∷ 65 ∷ 65 ∷ fours cs

unfoldable pub unfours : List ℕ → List ℕ
unfours [] = []
unfours (a ∷ []) = []
unfours (a ∷ b ∷ []) = []
unfours (a ∷ b ∷ c ∷ []) = []
unfours (a ∷ b ∷ c ∷ d ∷ rest) = (a - 1000) ∷ unfours rest

unfoldable pub pair_of : List ℕ → Option CursorPayload
pair_of [] = none
pair_of (t ∷ []) = none
pair_of (t ∷ i ∷ []) = some (record { timestamp = t; id = i })
pair_of (t ∷ i ∷ x ∷ rest) = none

abbrev pub sample_codec : Codec
sample_codec = record {
  to_json = λ p. p.timestamp ∷ p.id ∷ [];
  of_json = pair_of;
  base64 = fours;
  of_base64 = unfours;
}

unfours-fours : (text : List ℕ) → unfours (fours text) ≡ text
unfolding fours unfours
unfours-fours [] = refl
unfours-fours (c ∷ cs) = rw (unfours-fours cs) (ap (λ n. n ∷ cs) (omega arith))

append-nil : (xs : List ℕ) → xs ≡ xs ++ []
append-nil [] = refl
append-nil (x ∷ xs) = ap (λ t. x ∷ t) (append-nil xs)

fours-units : (text : List ℕ) → All (λ c. (c ≢ 45) × (c ≢ 95) × (c ≢ 61)) (fours text)
unfolding fours
fours-units [] = tt
fours-units (c ∷ cs) = (
  ((λ e. omega arith), (λ e. omega arith), λ e. omega arith),
  (
    (λ e. omega arith, λ e. omega arith, λ e. omega arith),
    (
      (λ e. omega arith, λ e. omega arith, λ e. omega arith),
      ((λ e. omega arith, λ e. omega arith, λ e. omega arith), fours-units cs),
    ),
  ),
)

fours-length : (text : List ℕ) → length (fours text) % 4 ≡ 0
unfolding fours
fours-length [] = refl
fours-length (c ∷ cs) = let ih = fours-length cs in omega (arith, ih)

fours-IsBase64 : (text : List ℕ) → IsBase64 (fours text)
fours-IsBase64 text = record {
  body = fours text;
  padding = 0;
  parts = append-nil (fours text);
  units = fours-units text;
  few = omega arith;
  whole = let l = fours-length text in omega (arith, l);
}

pub sample_laws : CodecLaws sample_codec
unfolding pair_of
sample_laws = record {
  of_json-to_json = λ p. refl;
  of_base64-base64 = unfours-fours;
  base64-IsBase64 = fours-IsBase64;
}
