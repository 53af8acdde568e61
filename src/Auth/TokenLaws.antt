-- ===== src/Auth/TokenLaws.antt =====
-- What becomes of the refresh tokens of backend/src/auth/auth.service.ts.
use mathlib.Core.Path.{subst}
use hub_assist.Common.{
  leb, ℕ, ◌*◌, ◌<◌, ◌≤◌, ◌≡◌, refl, ap, >>=-eq-ok, ok-injective, Bool, true, false, not, Option,
  none, some, List, [], ◌∷◌, ok, err, ltb, ◌==◌, find?, or_throw, throw_if, update_where, All,
  All-append, Bool-cases, inl, inr, arith,
}
use hub_assist.Auth.Tokens.{
  RefreshToken, Account, Fresh, Blacklist, find_by_token, revoke_token, revoke_all_user_tokens,
  blacklist_access_token, is_blacklisted, issue, login, refresh, logout, invalid_refresh_token,
  invalid_credentials, not_verified, expired_refresh_token, user_not_found,
}

-- The tokens of a user that `refresh` would still take.
abbrev pub IsShut : ℕ → RefreshToken → Type 0
IsShut user_id r = r.user_id ≡ user_id → r.is_revoked ≡ true

revoke_all_user_tokens-IsShut :
    (user_id : ℕ) (rows : List RefreshToken)
    → All (IsShut user_id) (revoke_all_user_tokens user_id rows)
unfolding revoke_all_user_tokens
revoke_all_user_tokens-IsShut user_id [] = tt
revoke_all_user_tokens-IsShut user_id (r ∷ rs) =
    let ih = revoke_all_user_tokens-IsShut user_id rs in (λ mine. ground arith, ih)

blacklist_access_token-is_blacklisted :
    (now later jti exp : ℕ) (cache : Blacklist)
    → now < exp * 1000
    → later < exp * 1000
    → is_blacklisted later jti (blacklist_access_token now jti exp cache) ≡ true
unfolding is_blacklisted blacklist_access_token
blacklist_access_token-is_blacklisted now later jti exp cache h before = ground arith

blacklist_access_token-expired :
    (now later jti exp other : ℕ) (cache : Blacklist)
    → exp * 1000 ≤ later
    → is_blacklisted later other (blacklist_access_token now jti exp cache)
      ≡ is_blacklisted later other cache
unfolding is_blacklisted blacklist_access_token
blacklist_access_token-expired now later jti exp other cache after =
    elim (Bool-cases (leb (exp * 1000) now)) [
      | inl gone ↦ rw gone refl
      | inr alive ↦
          let over : ltb later (exp * 1000) ≡ false = ground arith in
          elim (Bool-cases (jti == other)) [
            | inl same ↦ rw (alive, same, over) refl
            | inr apart ↦ rw (alive, apart) refl
          ]
    ]

module _ (hash : ℕ → ℕ → ℕ) (compare : ℕ → ℕ → Bool) where
  -- A log-out shuts every session: all refresh tokens of the user are revoked, and the access token, if it
  -- has not expired yet, is on the blacklist until its very expiry. From then on the log-out makes no
  -- difference to the blacklist: each token is on it exactly if it was on it without the log-out.
  pub logout-IsShut :
      (now user_id jti exp : ℕ) (rows : List RefreshToken) (cache : Blacklist)
      → now < exp * 1000
      → All (IsShut user_id) (logout hash compare now user_id (some (jti, exp)) rows cache).0
        × ((later : ℕ)
            → later < exp * 1000
            → is_blacklisted later jti
                (logout hash compare now user_id (some (jti, exp)) rows cache).1
              ≡ true)
        × ((later other : ℕ)
            → exp * 1000 ≤ later
            → is_blacklisted later other
                (logout hash compare now user_id (some (jti, exp)) rows cache).1
              ≡ is_blacklisted later other cache)
  unfolding logout
  logout-IsShut now user_id jti exp rows cache h = (
    revoke_all_user_tokens-IsShut user_id rows,
    (λ later before. blacklist_access_token-is_blacklisted now later jti exp cache h before),
    λ later other after. blacklist_access_token-expired now later jti exp other cache after,
  )

  -- No row of a table has the token.
  abbrev Lacks : ℕ → List RefreshToken → Type 0
  Lacks token rows = All (λ r. (r.token == token) ≡ false) rows

  abbrev IsNoHash : ℕ → Type 0
  IsNoHash token = (salt t : ℕ) → (hash salt t == token) ≡ false

  issue-Lacks :
      (token : ℕ) (f : Fresh) (user_id : ℕ) (rows : List RefreshToken)
      → IsNoHash token
      → Lacks token rows
      → Lacks token (issue hash compare f user_id rows)
  unfolding issue
  issue-Lacks token f user_id rows no_hash h =
      All-append (λ r. (r.token == token) ≡ false) rows _ h (no_hash f.salt f.token, tt)

  update_where-Lacks :
      (token : ℕ) (p : RefreshToken → Bool) (rows : List RefreshToken)
      → Lacks token rows
      → Lacks token (update_where p (λ r. record r { is_revoked = true }) rows)
  update_where-Lacks token p [] h = tt
  update_where-Lacks token p (r ∷ rs) h =
      let ih = update_where-Lacks token p rs h.1 in
      let here = h.0 in
      elim (Bool-cases (p r)) [ inl hit ↦ rw hit (here, ih) | inr miss ↦ rw miss (here, ih) ]

  find_by_token-Lacks :
      (token : ℕ) (rows : List RefreshToken) → Lacks token rows → find_by_token token rows ≡ none
  unfolding find_by_token
  find_by_token-Lacks token [] h = refl
  find_by_token-Lacks token (r ∷ rs) h = rw h.0 (find_by_token-Lacks token rs h.1)

  login-Lacks :
      (token : ℕ) (f : Fresh) (email password : ℕ) (users : List Account)
      (rows rows' : List RefreshToken) (t : ℕ)
      → IsNoHash token
      → Lacks token rows
      → login hash compare f email password users rows ≡ ok (rows', t)
      → Lacks token rows'
  unfolding login
  login-Lacks token f email password users rows rows' t no_hash h done =
      let found = find? (λ u. u.email == email) users in
      let (user, _, e1) = >>=-eq-ok (or_throw found invalid_credentials) _ done in
      let (_, _, e2) =
        >>=-eq-ok (throw_if (not (compare password user.password_hash)) invalid_credentials) _ e1 in
      let (_, _, e3) = >>=-eq-ok (throw_if (not user.is_verified) not_verified) _ e2 in
      subst (Lacks token) (ap (λ p. p.0) (ok-injective e3))
        (issue-Lacks token f user.id rows no_hash h)

  refresh-Lacks :
      (token : ℕ) (f : Fresh) (old : ℕ) (users : List Account) (rows rows' : List RefreshToken)
      (t : ℕ)
      → IsNoHash token
      → Lacks token rows
      → refresh hash compare f old users rows ≡ ok (rows', t)
      → Lacks token rows'
  unfolding refresh revoke_token
  refresh-Lacks token f old users rows rows' t no_hash h done =
      let (row, _, e1) =
        >>=-eq-ok (or_throw (find_by_token old rows) invalid_refresh_token) _ done in
      let (_, _, e2) = >>=-eq-ok (throw_if row.is_revoked invalid_refresh_token) _ e1 in
      let (_, _, e3) = >>=-eq-ok (throw_if (ltb row.expires_at f.now) expired_refresh_token) _ e2 in
      let (user, _, e4) =
        >>=-eq-ok (or_throw (find? (λ u. u.id == row.user_id) users) user_not_found) _ e3 in
      subst (Lacks token) (ap (λ p. p.0) (ok-injective e4))
        (issue-Lacks token f user.id _ no_hash (update_where-Lacks token _ rows h))

  -- A run of the service: the calls that change the table of refresh tokens and return.
  pub data Run : List RefreshToken → Type 0 where
    started : Run []
    issued :
        {rows : List RefreshToken} (f : Fresh) (user_id : ℕ)
        → Run rows
        → Run (issue hash compare f user_id rows)
    logged_in :
        {rows rows' : List RefreshToken} (f : Fresh) (email password : ℕ) (users : List Account)
        (t : ℕ)
        → Run rows
        → login hash compare f email password users rows ≡ ok (rows', t)
        → Run rows'
    refreshed :
        {rows rows' : List RefreshToken} (f : Fresh) (token : ℕ) (users : List Account) (t : ℕ)
        → Run rows
        → refresh hash compare f token users rows ≡ ok (rows', t)
        → Run rows'
    logged_out :
        {rows : List RefreshToken} (now user_id : ℕ) (claims : Option (ℕ × ℕ)) (cache : Blacklist)
        → Run rows
        → Run (logout hash compare now user_id claims rows cache).0

  Run-Lacks : (token : ℕ) {rows : List RefreshToken} → Run rows → IsNoHash token → Lacks token rows
  unfolding logout revoke_all_user_tokens
  Run-Lacks token started n = tt
  Run-Lacks token (issued {rows} f user_id run) n =
      issue-Lacks token f user_id rows n (Run-Lacks token run n)
  Run-Lacks token (logged_in {rows} {rows'} f email password users t run e) n =
      login-Lacks token f email password users rows rows' t n (Run-Lacks token run n) e
  Run-Lacks token (refreshed {rows} {rows'} f old users t run e) n =
      refresh-Lacks token f old users rows rows' t n (Run-Lacks token run n) e
  Run-Lacks token (logged_out {rows} now user_id none cache run) n =
      update_where-Lacks token _ rows (Run-Lacks token run n)
  Run-Lacks token (logged_out {rows} now user_id (some claims) cache run) n =
      update_where-Lacks token _ rows (Run-Lacks token run n)

  -- A token that is no bcrypt hash of any token never refreshes a session: in every table that a run
  -- reaches, `refresh` refuses it as invalid.
  refresh_refused :
      {rows : List RefreshToken} (run : Run rows) (f : Fresh) (token : ℕ) (users : List Account)
      → ((salt t : ℕ) → (hash salt t == token) ≡ false)
      → refresh hash compare f token users rows ≡ err invalid_refresh_token
  unfolding refresh
  refresh_refused {rows} run f token users no_hash =
      rw (find_by_token-Lacks token rows (Run-Lacks token run no_hash)) refl
