-- ===== src/Auth/Totp.antt =====
-- `verifyToken` and `generateHotp` of backend/src/auth/totp.service.ts. Moments are whole seconds. HMAC-SHA1
-- of Node's crypto, and `parseInt` and `toUpperCase` of the language, are the section's parameters; a call
-- that throws gives none.
use hub_assist.Common.{
  ℕ, zero, suc, ◌+◌, ◌-◌, ◌*◌, ◌/◌, ◌%◌, ◌^◌, ◌≤◌, ◌<◌, ◌≡◌, refl, sym, ◌⊎◌, inl, inr, Bool, true,
  false, not, Option, none, some, List, [], ◌∷◌, leb, ◌==◌, if◌then◌else◌, arith, length, ==_refl,
  Bool-cases,
}
use mathlib.Core.Path.{subst}
use native.Mathlib.Decide.{ℕ_discrete}
use hub_assist.Auth.Base32.{base32_decode}

abbrev pub digits : ℕ
digits = 6

abbrev pub time_step : ℕ
time_step = 30

-- `digest[i]`, where a byte that is not there counts as 0 in the bit operations.
abbrev pub byte_at : List ℕ → ℕ → ℕ
byte_at [] i = 0
byte_at (b ∷ bs) zero = b
byte_at (b ∷ bs) (suc i) = byte_at bs i

-- `writeBigInt64BE(BigInt(counter), 0)`.
abbrev pub counter_buffer : ℕ → List ℕ
counter_buffer c =
    c / 2 ^ 56 % 256
    ∷ c / 2 ^ 48 % 256
    ∷ c / 2 ^ 40 % 256
    ∷ c / 2 ^ 32 % 256
    ∷ c / 2 ^ 24 % 256
    ∷ c / 2 ^ 16 % 256
    ∷ c / 2 ^ 8 % 256
    ∷ c % 256
    ∷ []

-- The dynamic truncation of a digest to six decimal digits.
unfoldable pub truncate : List ℕ → ℕ
truncate digest =
    let offset = byte_at digest (length digest - 1) % 2 ^ 4 in
    (byte_at digest offset % 2 ^ 7 * 2 ^ 24
      + byte_at digest (offset + 1) % 2 ^ 8 * 2 ^ 16
      + byte_at digest (offset + 2) % 2 ^ 8 * 2 ^ 8
      + byte_at digest (offset + 3) % 2 ^ 8)
    % 10 ^ digits

-- `timeCounter + i` for i from -1 to 1, as the 64-bit integers that are written; before the first
-- half minute the first of them is -1.
abbrev pub windows : ℕ → List ℕ
windows time_counter =
    (2 ^ 64 + time_counter - 1) % 2 ^ 64 ∷ (time_counter ∷ ((time_counter + 1) ∷ []))

module _ (to_upper : ℕ → ℕ) (hmac : List ℕ → List ℕ → List ℕ) (parse_int : List ℕ → Option ℕ) where
  unfoldable pub generate_hotp : List ℕ → ℕ → Option ℕ
  unfolding truncate
  generate_hotp secret counter = elim (base32_decode to_upper secret) [
    | none ↦ none
    | some decoded_secret ↦ some (truncate (hmac decoded_secret (counter_buffer counter)))
  ]

  -- The loop over the windows.
  unfoldable pub any_window : List ℕ → ℕ → List ℕ → Option Bool
  unfolding generate_hotp
  any_window secret token_number [] = some false
  any_window secret token_number (counter ∷ later) =
      let rest = any_window secret token_number later in
      elim (generate_hotp secret counter) [
        | none ↦ none
        | some expected ↦ if expected == token_number then some true else rest
      ]

  unfoldable pub verify_token : List ℕ → ℕ → List ℕ → Option Bool
  unfolding any_window
  verify_token secret now token =
      if not (length token == digits) then some false else elim (parse_int token) [
        | none ↦ some false
        | some token_number ↦ any_window secret token_number (windows (now / time_step))
      ]

  any_window-later :
      (secret decoded : List ℕ) (counter code : ℕ) (later : List ℕ)
      → base32_decode to_upper secret ≡ some decoded
      → any_window secret code later ≡ some true
      → any_window secret code (counter ∷ later) ≡ some true
  unfolding any_window generate_hotp
  any_window-later secret decoded counter code later reads h =
      rw (reads, any_window, generate_hotp)
        (elim (Bool-cases (truncate (hmac decoded (counter_buffer counter)) == code)) [
          | inl hit ↦ rw hit refl
          | inr miss ↦ rw miss h
        ])

  any_window-here :
      (secret : List ℕ) (counter code : ℕ) (later : List ℕ)
      → generate_hotp secret counter ≡ some code
      → any_window secret code (counter ∷ later) ≡ some true
  unfolding any_window
  any_window-here secret counter code later h = rw (h, any_window) (rw (==_refl code) refl)

  windows-generate_hotp :
      (secret decoded : List ℕ) (code made now : ℕ)
      → base32_decode to_upper secret ≡ some decoded
      → generate_hotp secret made ≡ some code
      → made < 2 ^ 64
      → (made ≡ now) ⊎ ((made ≡ now + 1) ⊎ (now ≡ made + 1))
      → any_window secret code (windows now) ≡ some true
  windows-generate_hotp secret decoded code made now reads makes fits (inl same) =
      any_window-later secret decoded ((2 ^ 64 + now - 1) % 2 ^ 64) code (now ∷ ((now + 1) ∷ []))
        reads (any_window-here secret now code ((now + 1) ∷ []) (rw (sym same) makes))
  windows-generate_hotp secret decoded code made now reads makes fits (inr (inl next)) =
      any_window-later secret decoded ((2 ^ 64 + now - 1) % 2 ^ 64) code (now ∷ ((now + 1) ∷ []))
        reads
        (any_window-later secret decoded now code ((now + 1) ∷ []) reads
          (any_window-here secret (now + 1) code [] (rw (sym next) makes)))
  windows-generate_hotp secret decoded code made now reads makes fits (inr (inr before)) =
      any_window-here secret ((2 ^ 64 + now - 1) % 2 ^ 64) code (now ∷ ((now + 1) ∷ []))
        (subst (λ c. generate_hotp secret c ≡ some code) (window made now before fits) makes)
    where
      window : (a b : ℕ) → b ≡ a + 1 → a < 2 ^ 64 → a ≡ (2 ^ 64 + b - 1) % 2 ^ 64
      window a b h k = omega arith

  -- The code that `generateHotp` makes for the half minute of one moment is accepted at each moment of
  -- this half minute, of the one before it and of the one after it, where the token is six characters
  -- that read as the code, the secret is one that can be decoded, and the moment is below 2 ^ 64.
  pub verify_token-generate_hotp :
      (secret decoded token : List ℕ) (code made now : ℕ)
      → base32_decode to_upper secret ≡ some decoded
      → generate_hotp secret (made / time_step) ≡ some code
      → length token ≡ digits
      → parse_int token ≡ some code
      → made / time_step ≤ now / time_step + 1
      → now / time_step ≤ made / time_step + 1
      → made < 2 ^ 64
      → verify_token secret now token ≡ some true
  unfolding verify_token
  verify_token-generate_hotp secret decoded token code made now reads makes six parses late early
        fits =
      rw (six, parses)
        (windows-generate_hotp secret decoded code (made / time_step) (now / time_step) reads makes
          (omega arith) (three (made / time_step) (now / time_step) late early))
    where
      three : (a b : ℕ) → a ≤ b + 1 → b ≤ a + 1 → (a ≡ b) ⊎ ((a ≡ b + 1) ⊎ (b ≡ a + 1))
      three a b h k = elim (ℕ_discrete a b) [
        | yes e ↦ inl e
        | no n ↦ elim (Bool-cases (leb a b)) [
          | inl le ↦ inr (inr (ground arith))
          | inr gt ↦ inr (inl (ground arith))
        ]
      ]
