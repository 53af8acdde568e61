-- ===== src/Auth/Base32.antt =====
-- `base32Encode` and `base32Decode` of backend/src/auth/totp.service.ts. A byte, a digit and a UTF-16 code
-- unit are numbers, a string is the list of its units. `value` is a 32-bit integer: `value << 8 | byte`
-- drops what leaves the 32 bits, and `>>>` shifts its bits as they are. The section's parameter is
-- `toUpperCase` of one unit.
use hub_assist.Common.{
  ℕ, zero, suc, ◌+◌, ◌-◌, ◌*◌, ◌/◌, ◌%◌, ◌^◌, Option, none, some, List, [], ◌∷◌, ◌++◌, leb, ltb,
  ◌==◌, if◌then◌else◌,
}

-- 'ABCDEFGHIJKLMNOPQRSTUVWXYZ234567'
abbrev pub alphabet : List ℕ
alphabet =
    65 ∷ 66 ∷ 67 ∷ 68 ∷ 69 ∷ 70 ∷ 71 ∷ 72 ∷ 73 ∷ 74 ∷ 75 ∷ 76 ∷ 77 ∷ 78 ∷ 79 ∷ 80 ∷ 81 ∷ 82 ∷ 83
    ∷ 84 ∷ 85 ∷ 86 ∷ 87 ∷ 88 ∷ 89 ∷ 90 ∷ 50 ∷ 51 ∷ 52 ∷ 53 ∷ 54 ∷ 55 ∷ []

-- `alphabet[i]`, for an index below 32.
unfoldable pub char_at : List ℕ → ℕ → ℕ
char_at [] i = 0
char_at (c ∷ cs) zero = c
char_at (c ∷ cs) (suc i) = char_at cs i

-- `alphabet.indexOf(c)`, none for -1.
unfoldable pub index_from : ℕ → List ℕ → ℕ → Option ℕ
index_from i [] c = none
index_from i (x ∷ xs) c = let rest = index_from (i + 1) xs c in if x == c then some i else rest

unfoldable pub index_of : List ℕ → ℕ → Option ℕ
index_of xs c = index_from 0 xs c

-- `(value << 8) | byte` and `(value << 5) | index`, as bit patterns.
abbrev pub push_byte : ℕ → ℕ → ℕ
push_byte value byte = (value * 2 ^ 8 + byte) % 2 ^ 32

abbrev pub push_digit : ℕ → ℕ → ℕ
push_digit value index = (value * 2 ^ 5 + index) % 2 ^ 32

-- The digit `(value >>> (bits - 5)) & 31`.
abbrev pub top_digit : ℕ → ℕ → ℕ
top_digit value bits = value / 2 ^ (bits - 5) % 2 ^ 5

-- The digits of the `while (bits >= 5)` after a byte, which leaves at most 12 bits: two rounds at most.
unfoldable pub emit : ℕ → ℕ → ℕ → List ℕ
emit zero value bits = []
emit (suc rounds) value bits =
    let rest = top_digit value bits ∷ emit rounds value (bits - 5) in
    if leb 5 bits then rest else []

unfoldable pub bits_left : ℕ → ℕ → ℕ
bits_left zero bits = bits
bits_left (suc rounds) bits =
    let rest = bits_left rounds (bits - 5) in if leb 5 bits then rest else bits

-- The loop over the buffer and the last digit, as digits.
unfoldable pub encode_from : ℕ → ℕ → List ℕ → List ℕ
encode_from value bits [] =
    if ltb 0 bits then (value * 2 ^ (5 - bits) % 2 ^ 32 % 2 ^ 5) ∷ [] else []
encode_from value bits (byte ∷ rest) =
    emit 2 (push_byte value byte) (bits + 8)
    ++ encode_from (push_byte value byte) (bits_left 2 (bits + 8)) rest

unfoldable pub to_chars : List ℕ → List ℕ
to_chars [] = []
to_chars (i ∷ is) = char_at alphabet i ∷ to_chars is

unfoldable pub base32_encode : List ℕ → List ℕ
base32_encode buffer = to_chars (encode_from 0 0 buffer)

module _ (to_upper : ℕ → ℕ) where
  -- The loop over the input; none is the throw of a character outside the alphabet.
  unfoldable pub decode_from : ℕ → ℕ → List ℕ → Option (List ℕ)
  decode_from value bits [] = some []
  decode_from value bits (c ∷ cs) = elim (index_of alphabet (to_upper c)) [
    | none ↦ none
    | some index ↦
        if leb 8 (bits + 5)
        then elim (decode_from (push_digit value index) (bits + 5 - 8) cs) [
          | none ↦ none
          | some output ↦ some (push_digit value index / 2 ^ (bits + 5 - 8) % 2 ^ 8 ∷ output)
        ]
        else decode_from (push_digit value index) (bits + 5) cs
  ]

  unfoldable pub base32_decode : List ℕ → Option (List ℕ)
  base32_decode input = decode_from 0 0 input
