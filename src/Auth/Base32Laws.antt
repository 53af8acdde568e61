-- ===== src/Auth/Base32Laws.antt =====
-- A secret of backend/src/auth/totp.service.ts is the same after it was written out and read back. The
-- decoder holds the upper bits of the byte whose lower bits the encoder still holds.
use hub_assist.Common.{
  ℕ, zero, suc, ◌+◌, ◌-◌, ◌*◌, ◌/◌, ◌%◌, ◌^◌, ◌<◌, ◌≡◌, refl, ap, ◌∙◌, Bool, true, false, ◌&&◌,
  Option, none, some, List, [], ◌∷◌, leb, ◌==◌, All, arith, Bool-cases, inl, inr, ==→eq,
}
use hub_assist.Auth.Base32.{
  alphabet, char_at, index_from, index_of, push_digit, emit, bits_left, encode_from, to_chars,
  base32_encode, decode_from, base32_decode,
}

abbrev is_some : Option ℕ → ℕ → Bool
is_some none d = false
is_some (some i) d = i == d

is_some-eq : (o : Option ℕ) (d : ℕ) → is_some o d ≡ true → o ≡ some d
is_some-eq none d h = cc
is_some-eq (some i) d h = ap some (==→eq i d h)

all_below : (ℕ → Bool) → ℕ → Bool
all_below p zero = true
all_below p (suc n) = p n && all_below p n

all_below-holds : (p : ℕ → Bool) (n d : ℕ) → all_below p n ≡ true → d < n → p d ≡ true
unfolding all_below
all_below-holds p zero d h l = absurd (omega arith)
all_below-holds p (suc n) d h l = elim (Bool-cases (d == n)) [
  | inl here ↦ rw (==→eq d n here) (ground arith)
  | inr there ↦ all_below-holds p n d (ground arith) (ground arith)
]

found : all_below (λ d. is_some (index_of alphabet (char_at alphabet d)) d) 32 ≡ true
unfolding all_below index_of index_from char_at
found = refl

index_of-char_at : (d : ℕ) → d < 32 → index_of alphabet (char_at alphabet d) ≡ some d
index_of-char_at d l =
    is_some-eq (index_of alphabet (char_at alphabet d)) d
      (all_below-holds (λ d. is_some (index_of alphabet (char_at alphabet d)) d) 32 d found l)

module _ (to_upper : ℕ → ℕ)
    (upper : (d : ℕ) → d < 32 → to_upper (char_at alphabet d) ≡ char_at alphabet d) where
  index_of-to_upper : (d : ℕ) → d < 32 → index_of alphabet (to_upper (char_at alphabet d)) ≡ some d
  index_of-to_upper d l = ap (index_of alphabet) (upper d l) ∙ index_of-char_at d l

  abbrev read : ℕ → ℕ → List ℕ → Option (List ℕ)
  read value bits digits = decode_from to_upper value bits (to_chars digits)

  read-short :
      (v b d : ℕ) (ds : List ℕ)
      → d < 32
      → leb 8 (b + 5) ≡ false
      → read v b (d ∷ ds) ≡ read (push_digit v d) (b + 5) ds
  unfolding decode_from to_chars
  read-short v b d ds l few = let e = index_of-to_upper d l in ground (arith, e, few)

  read-long :
      (v b d : ℕ) (ds out : List ℕ)
      → d < 32
      → leb 8 (b + 5) ≡ true
      → read (push_digit v d) (b + 5 - 8) ds ≡ some out
      → read v b (d ∷ ds) ≡ some (push_digit v d / 2 ^ (b + 5 - 8) % 2 ^ 8 ∷ out)
  unfolding decode_from to_chars
  read-long v b d ds out l many rest =
      let e = index_of-to_upper d l in ground (arith, e, many, rest)

  -- What is read of a byte that is split between the two, with `2 ^ k` the share of the encoder.
  abbrev Reads : ℕ → ℕ → ℕ → List ℕ → Type 0
  Reads k low high bytes =
      (v w : ℕ)
      → read w high (encode_from v k bytes) ≡ some ((w % 2 ^ high * low + v % low) ∷ bytes)

  abbrev AllReads : List ℕ → Type 0
  AllReads bytes =
      ((v w : ℕ) → read w 0 (encode_from v 0 bytes) ≡ some bytes)
      × Reads 1 2 7 bytes
      × Reads 2 4 6 bytes
      × Reads 3 8 5 bytes
      × Reads 4 16 4 bytes

  cons-eq :
      {a b : ℕ} {rest : List ℕ} {o : Option (List ℕ)}
      → o ≡ some (a ∷ rest)
      → a ≡ b
      → o ≡ some (b ∷ rest)
  cons-eq {a} {b} {rest} {o} h e = h ∙ ap (λ x. some (x ∷ rest)) e

  AllReads-nil : AllReads []
  unfolding encode_from decode_from to_chars
  AllReads-nil = (
    λ v w. refl,
    (λ v w. cons-eq (read-long w 7 _ [] [] (omega arith) refl refl) (omega arith)),
    (λ v w. cons-eq (read-long w 6 _ [] [] (omega arith) refl refl) (omega arith)),
    (λ v w. cons-eq (read-long w 5 _ [] [] (omega arith) refl refl) (omega arith)),
    λ v w. cons-eq (read-long w 4 _ [] [] (omega arith) refl refl) (omega arith),
  )

  AllReads-cons : (y : ℕ) (ys : List ℕ) → y < 256 → AllReads ys → AllReads (y ∷ ys)
  unfolding encode_from emit bits_left
  AllReads-cons y ys l (r0, r1, r2, r3, r4) = (
    λ v w. read-short w 0 _ _ (omega arith) refl ∙ cons-eq (r3 _ _) (omega arith),
    (λ v w.
        cons-eq (read-long w 7 _ _ _ (omega arith) refl (cons-eq (r4 _ _) (omega arith)))
          (omega arith)),
    (λ v w.
        cons-eq
          (read-long w 6 _ _ _ (omega arith) refl
            (cons-eq (read-long _ 3 _ _ _ (omega arith) refl (r0 _ _)) (omega arith)))
          (omega arith)),
    (λ v w.
        cons-eq
          (read-long w 5 _ _ _ (omega arith) refl
            (read-short _ 2 _ _ (omega arith) refl ∙ cons-eq (r1 _ _) (omega arith)))
          (omega arith)),
    λ v w.
        cons-eq
          (read-long w 4 _ _ _ (omega arith) refl
            (read-short _ 1 _ _ (omega arith) refl ∙ cons-eq (r2 _ _) (omega arith)))
          (omega arith),
  )

  AllReads-bytes : (bytes : List ℕ) → All (λ b. b < 256) bytes → AllReads bytes
  AllReads-bytes [] h = AllReads-nil
  AllReads-bytes (y ∷ ys) h = AllReads-cons y ys h.0 (AllReads-bytes ys h.1)

  -- A secret survives: what `base32Decode` reads of the string that `base32Encode` writes for some bytes
  -- are these bytes, of any number, where `toUpperCase` leaves the characters of the alphabet alone.
  pub base32_decode-base32_encode :
      (bytes : List ℕ)
      → All (λ b. b < 256) bytes
      → base32_decode to_upper (base32_encode bytes) ≡ some bytes
  unfolding base32_decode base32_encode
  base32_decode-base32_encode bytes h = (AllReads-bytes bytes h).0 0 0
