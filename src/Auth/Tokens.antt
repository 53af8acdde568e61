-- ===== src/Auth/Tokens.antt =====
-- The refresh tokens of backend/src/auth/auth.service.ts (`login`, `refresh`, `logout`, `logoutAll`),
-- refresh-token.repository.ts and token-blacklist.service.ts. The section's parameters are bcrypt's
-- `hash`, given its salt, and its `compare`. New keys, tokens and salts are arguments; the signed access
-- token is left out.
use hub_assist.Common.{
  ℕ, ◌+◌, ◌*◌, Bool, true, false, not, Option, none, some, List, [], ◌∷◌, ◌++◌, ok, ltb, leb, ◌==◌,
  find?, Result, or_throw, throw_if, ◌>>=◌, update_where, if◌then◌else◌,
}
use hub_assist.Pricing.Rules.{present}

abbrev pub refresh_lifetime_ms : ℕ
refresh_lifetime_ms = 604800000

pub record RefreshToken : Type 0 where
  pub id : ℕ
  pub token : ℕ
  pub user_id : ℕ
  pub expires_at : ℕ
  pub is_revoked : Bool

pub record Account : Type 0 where
  pub id : ℕ
  pub email : ℕ
  pub password_hash : ℕ
  pub is_verified : Bool

pub data AuthError : Type 0 where
  invalid_credentials not_verified invalid_refresh_token expired_refresh_token user_not_found :
      AuthError

-- What a call needs of the outside: the time, and the key, the token and the salt that it makes.
pub record Fresh : Type 0 where
  pub now : ℕ
  pub id : ℕ
  pub token : ℕ
  pub salt : ℕ

-- `findByToken`, `revokeToken` and `revokeAllUserTokens`.
unfoldable pub find_by_token : ℕ → List RefreshToken → Option RefreshToken
find_by_token token rows = find? (λ r. r.token == token) rows

unfoldable pub revoke_token : ℕ → List RefreshToken → List RefreshToken
revoke_token id rows = update_where (λ r. r.id == id) (λ r. record r { is_revoked = true }) rows

unfoldable pub revoke_all_user_tokens : ℕ → List RefreshToken → List RefreshToken
revoke_all_user_tokens user_id rows =
    update_where (λ r. r.user_id == user_id) (λ r. record r { is_revoked = true }) rows

-- The cache of revoked access tokens: the keys with the times at which they go.
abbrev pub Blacklist : Type 0
Blacklist = List (ℕ × ℕ)

-- `blacklistToken` on `remainingMs`: nothing for a token that has expired.
unfoldable pub blacklist_access_token : ℕ → ℕ → ℕ → Blacklist → Blacklist
blacklist_access_token now jti exp cache =
    if leb (exp * 1000) now then cache else (jti, exp * 1000) ∷ cache

unfoldable pub is_blacklisted : ℕ → ℕ → Blacklist → Bool
is_blacklisted now jti cache =
    present (find? (λ e. if e.0 == jti then ltb now e.1 else false) cache)

module _ (hash : ℕ → ℕ → ℕ) (compare : ℕ → ℕ → Bool) where
  -- `create` of the repository, on the hash of the token that goes to the client.
  unfoldable pub issue : Fresh → ℕ → List RefreshToken → List RefreshToken
  issue f user_id rows =
      rows
      ++ record {
        id = f.id;
        token = hash f.salt f.token;
        user_id = user_id;
        expires_at = f.now + refresh_lifetime_ms;
        is_revoked = false;
      }
        ∷ []

  -- `login`: the table, and the token that the client gets.
  unfoldable pub login :
      Fresh → ℕ → ℕ → List Account → List RefreshToken → Result AuthError (List RefreshToken × ℕ)
  login f email password users rows = do
    let found = find? (λ u. u.email == email) users
    user ← or_throw found invalid_credentials
    _ ← throw_if (not (compare password user.password_hash)) invalid_credentials
    _ ← throw_if (not user.is_verified) not_verified
    ok (issue f user.id rows, f.token)

  unfoldable pub refresh :
      Fresh → ℕ → List Account → List RefreshToken → Result AuthError (List RefreshToken × ℕ)
  refresh f refresh_token users rows = do
    record_ ← or_throw (find_by_token refresh_token rows) invalid_refresh_token
    _ ← throw_if record_.is_revoked invalid_refresh_token
    _ ← throw_if (ltb record_.expires_at f.now) expired_refresh_token
    user ← or_throw (find? (λ u. u.id == record_.user_id) users) user_not_found
    ok (issue f user.id (revoke_token record_.id rows), f.token)

  -- `logout` and `logoutAll`, which differ in their message only; `claims` are the access token's `jti`
  -- and `exp`.
  unfoldable pub logout :
      ℕ → ℕ → Option (ℕ × ℕ) → List RefreshToken → Blacklist → List RefreshToken × Blacklist
  logout now user_id none rows cache = (revoke_all_user_tokens user_id rows, cache)
  logout now user_id (some (jti, exp)) rows cache =
      (revoke_all_user_tokens user_id rows, blacklist_access_token now jti exp cache)
