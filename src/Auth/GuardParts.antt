-- ===== src/Auth/GuardParts.antt =====
-- What JwtAuthGuard and CsrfGuard of backend/src/auth ask of a request.
use hub_assist.Common.{
  ◌≡◌, refl, ap, Bool, true, false, not, Option, none, some, if◌then◌else◌, Result, ok, throw_if,
  ◌>>◌, ◌>>=◌, ok-injective, Text, text_eq, text_eq→eq, text_eq_refl,
}
use mathlib.Core.Path.{subst}
use hub_assist.Auth.Guards.{
  Route, JwtPayload, SessionUser, HttpRequest, GuardError, revoked, csrf_invalid, filled,
  is_revoked, user_of, changes_state, has_bearer, validated, jwt_guard, verify_token, session_of,
  check_session, csrf_guard,
}

revoked_not_ok :
    (is_blacklisted : Text → Bool) (payload : JwtPayload) (b : Bool) (user : Option SessionUser)
    → ((throw_if b revoked >> ok (user_of payload)) >>= λ u. ok (some u)) ≡ ok user
    → (b ≡ false) × (some (user_of payload) ≡ user)
revoked_not_ok is_blacklisted payload true user h = cc
revoked_not_ok is_blacklisted payload false user h = (refl, ok-injective h)

module _ (authenticate : Option Text → Option JwtPayload) (is_blacklisted : Text → Bool)
    (within_limit : Text → Bool) (stored_token : Text → Option Text) where
  -- The handler is public and sees no user, or sees the user of a token that is accepted and not revoked.
  pub data Known (route : Route) (request : HttpRequest) : Option SessionUser → Type 0 where
    nobody : route.is_public ≡ true → Known route request none
    somebody :
        (payload : JwtPayload)
        → route.is_public ≡ false
        → authenticate request.authorization ≡ some payload
        → is_revoked is_blacklisted (filled payload.jti) ≡ false
        → Known route request (some (user_of payload))

  abbrev guard : Route → HttpRequest → Result GuardError (Option SessionUser)
  guard = jwt_guard authenticate is_blacklisted within_limit stored_token

  abbrev valid : Option JwtPayload → Result GuardError (Option SessionUser)
  valid = validated authenticate is_blacklisted within_limit stored_token

  validated→Known :
      (route : Route) (request : HttpRequest) (o : Option JwtPayload) (user : Option SessionUser)
      → route.is_public ≡ false
      → authenticate request.authorization ≡ o
      → valid o ≡ ok user
      → Known route request user
  validated→Known route request none user e a h = cc
  validated→Known route request (some payload) user e a h =
      let r =
        revoked_not_ok is_blacklisted payload (is_revoked is_blacklisted (filled payload.jti)) user
          h in
      subst (Known route request) r.1 (somebody payload e a r.0)

  pub jwt_guard→Known :
      (route : Route) (request : HttpRequest) (user : Option SessionUser)
      → guard route request ≡ ok user
      → Known route request user
  unfolding jwt_guard
  jwt_guard→Known route request user h = of_public route.is_public refl h
    where
      of_public :
          (b : Bool)
          → route.is_public ≡ b
          → (if b then ok none else valid (authenticate request.authorization)) ≡ ok user
          → Known route request user
      of_public true e k = subst (Known route request) (ok-injective k) (nobody e)
      of_public false e k =
          validated→Known route request (authenticate request.authorization) user e refl k

  pub Known-jwt_guard :
      (route : Route) (request : HttpRequest) (user : Option SessionUser)
      → Known route request user
      → guard route request ≡ ok user
  unfolding jwt_guard
  Known-jwt_guard route request none (nobody e) = rw e refl
  Known-jwt_guard route request (some user) (somebody payload e a r) = rw (e, a, r) refl

  -- A read, a route without the check, a header that starts with `Bearer `, or the token of the session.
  pub data FromSession (route : Route) (request : HttpRequest) (user : Option SessionUser)
      : Type 0 where
    reads : changes_state request.method ≡ false → FromSession route request user
    skips : route.skip_csrf ≡ true → FromSession route request user
    bears : has_bearer request.authorization ≡ true → FromSession route request user
    matches :
        (jti token : Text)
        → session_of user ≡ some jti
        → filled request.csrf_token ≡ some token
        → stored_token jti ≡ some token
        → FromSession route request user

  verify_token→eq :
      (stored : Option Text) (token : Text)
      → throw_if (not (verify_token stored token)) csrf_invalid ≡ ok tt
      → stored ≡ some token
  verify_token→eq none token h = cc
  verify_token→eq (some s) token h = of_eq (text_eq s token) refl h
    where
      of_eq :
          (b : Bool)
          → text_eq s token ≡ b
          → throw_if (not b) csrf_invalid ≡ ok tt
          → some s ≡ some token
      of_eq true e k = ap some (text_eq→eq s token e)
      of_eq false e k = cc

  check_session→FromSession :
      (route : Route) (request : HttpRequest) (user : Option SessionUser) (jti token : Option Text)
      → session_of user ≡ jti
      → filled request.csrf_token ≡ token
      → check_session stored_token jti token ≡ ok tt
      → FromSession route request user
  check_session→FromSession route request user none token e f h = cc
  check_session→FromSession route request user (some jti) none e f h = cc
  check_session→FromSession route request user (some jti) (some token) e f h =
      matches jti token e f (verify_token→eq (stored_token jti) token h)

  abbrev csrf : Route → HttpRequest → Option SessionUser → Result GuardError (Unit {0})
  csrf = csrf_guard authenticate is_blacklisted within_limit stored_token

  pub csrf_guard→FromSession :
      (route : Route) (request : HttpRequest) (user : Option SessionUser)
      → csrf route request user ≡ ok tt
      → FromSession route request user
  unfolding csrf_guard
  csrf_guard→FromSession route request user h =
      of_tests (changes_state request.method) route.skip_csrf (has_bearer request.authorization)
        refl refl refl h
    where
      of_tests :
          (c s b : Bool)
          → changes_state request.method ≡ c
          → route.skip_csrf ≡ s
          → has_bearer request.authorization ≡ b
          → (if not c
              then ok tt
              else if s
              then ok tt
              else if b
              then ok tt
              else check_session stored_token (session_of user) (filled request.csrf_token))
            ≡ ok tt
          → FromSession route request user
      of_tests false s b ec es eb k = reads ec
      of_tests true true b ec es eb k = skips es
      of_tests true false true ec es eb k = bears eb
      of_tests true false false ec es eb k =
          check_session→FromSession route request user (session_of user) (filled request.csrf_token)
            refl refl k

  if_same :
      (b : Bool) (r : Result GuardError (Unit {0})) → r ≡ ok tt → (if b then ok tt else r) ≡ ok tt
  if_same true r h = refl
  if_same false r h = h

  pub FromSession-csrf_guard :
      (route : Route) (request : HttpRequest) (user : Option SessionUser)
      → FromSession route request user
      → csrf route request user ≡ ok tt
  unfolding csrf_guard
  FromSession-csrf_guard route request user (reads e) = rw e refl
  FromSession-csrf_guard route request user (skips e) =
      if_same (not (changes_state request.method)) _ (rw e refl)
  FromSession-csrf_guard route request user (bears e) =
      if_same (not (changes_state request.method)) _ (if_same route.skip_csrf _ (rw e refl))
  FromSession-csrf_guard route request user (matches jti token e f g) =
      if_same (not (changes_state request.method)) _ (
        if_same route.skip_csrf _
          (if_same (has_bearer request.authorization) _ (rw (e, f, g, text_eq_refl token) refl)))
