-- ===== src/Auth/GuardLaws.antt =====
-- What the guards of backend/src/app.module.ts let pass.
use hub_assist.Common.{
  ◌≡◌, ◌↔◌, refl, sym, Bool, true, false, not, Option, none, some, Result, ok, err, throw_if, ◌>>◌,
  ◌>>=◌, >>=-eq-ok, ok-injective, Text,
}
use mathlib.Core.Path.{subst}
use hub_assist.Auth.Guards.{
  Route, JwtPayload, SessionUser, HttpRequest, GuardError, throttled, no_scope, filled, check_roles,
  changes_state, has_bearer, roles_guard, get_tracker, scope_guard, jwt_guard, csrf_guard,
  pass_others, pass_guards, user_scope, check_scope,
}
use hub_assist.Auth.GuardRoles.{HasRole, not_thrown, check_roles→HasRole, HasRole-check_roles}
use hub_assist.Auth.GuardParts.{
  Known, nobody, somebody, jwt_guard→Known, Known-jwt_guard, FromSession, reads, skips, bears,
  matches, csrf_guard→FromSession, FromSession-csrf_guard,
}

module _ (authenticate : Option Text → Option JwtPayload) (is_blacklisted : Text → Bool)
    (within_limit : Text → Bool) (stored_token : Text → Option Text) where
  -- What all four guards ask of a request, and of the user that the handler sees.
  pub record IsLetIn (route : Route) (request : HttpRequest) (user : Option SessionUser)
      : Type 0 where
    pub known : Known authenticate is_blacklisted within_limit stored_token route request user
    pub in_limit : within_limit (get_tracker request user) ≡ true
    pub has_role : HasRole route.roles user
    pub from_session :
        FromSession authenticate is_blacklisted within_limit stored_token route request user

  abbrev guard : Route → HttpRequest → Result GuardError (Option SessionUser)
  guard = jwt_guard authenticate is_blacklisted within_limit stored_token

  abbrev csrf : Route → HttpRequest → Option SessionUser → Result GuardError (Unit {0})
  csrf = csrf_guard authenticate is_blacklisted within_limit stored_token

  abbrev others : Route → HttpRequest → Option SessionUser → Result GuardError (Option SessionUser)
  others = pass_others authenticate is_blacklisted within_limit stored_token

  -- A request reaches the handler, as this user, exactly when it is public or has a token that is accepted
  -- and not revoked, keeps to the limit of its tracker, has a role that the handler's own decorator names,
  -- if there is one, and reads, is spared the check, has a header that starts with `Bearer `, or brings the
  -- token of its session.
  pub pass_guards_iff :
      (route : Route) (request : HttpRequest) (user : Option SessionUser)
      → (pass_guards authenticate is_blacklisted within_limit stored_token route request ≡ ok user)
        ↔ IsLetIn route request user
  unfolding pass_guards pass_others roles_guard
  pass_guards_iff route request user = (λ h. let_in h, λ l. passes l)
    where
      let_in : (guard route request >>= others route request) ≡ ok user → IsLetIn route request user
      let_in h =
          let first = >>=-eq-ok (guard route request) (others route request) h in
          let second =
            >>=-eq-ok
              (throw_if (not (within_limit (get_tracker request first.0))) throttled
                >> check_roles route.roles first.0
                >> csrf route request first.0)
              (λ t. ok first.0) first.2 in
          let third =
            >>=-eq-ok
              (throw_if (not (within_limit (get_tracker request first.0))) throttled
                >> check_roles route.roles first.0)
              (λ t. csrf route request first.0) second.1 in
          let fourth =
            >>=-eq-ok (throw_if (not (within_limit (get_tracker request first.0))) throttled)
              (λ t. check_roles route.roles first.0) third.1 in
          let same = ok-injective second.2 in
          subst (IsLetIn route request) same (record {
            known =
                jwt_guard→Known authenticate is_blacklisted within_limit stored_token route request
                  first.0 first.1;
            in_limit = not_thrown (within_limit (get_tracker request first.0)) throttled fourth.1;
            has_role = check_roles→HasRole route.roles first.0 fourth.2;
            from_session =
                csrf_guard→FromSession authenticate is_blacklisted within_limit stored_token route
                  request first.0 third.2;
          })

      passes : IsLetIn route request user → (guard route request >>= others route request) ≡ ok user
      passes l =
          rw
            (
              Known-jwt_guard authenticate is_blacklisted within_limit stored_token route request
                  user l.known,
              l.in_limit,
              HasRole-check_roles route.roles user l.has_role,
              FromSession-csrf_guard authenticate is_blacklisted within_limit stored_token route
                  request user l.from_session,
            )
            refl

  -- A public route that names no role and is not spared the check, and that changes state, opens to a
  -- request in its tracker's limit exactly when its header starts with `Bearer `, whatever follows.
  pub pass_guards_public_iff :
      (route : Route) (request : HttpRequest)
      → route.is_public ≡ true
      → route.roles ≡ none
      → route.skip_csrf ≡ false
      → changes_state request.method ≡ true
      → within_limit (get_tracker request none) ≡ true
      → (pass_guards authenticate is_blacklisted within_limit stored_token route request ≡ ok none)
        ↔ (has_bearer request.authorization ≡ true)
  pass_guards_public_iff route request p r s c w = (
    λ h. bearer ((pass_guards_iff route request none).0 h).from_session,
    λ b. (pass_guards_iff route request none).1 (record {
      known = nobody p;
      in_limit = w;
      has_role = subst (λ o. HasRole o none) (sym r) tt;
      from_session = bears b;
    }),
  )
    where
      bearer :
          FromSession authenticate is_blacklisted within_limit stored_token route request none
          → has_bearer request.authorization ≡ true
      bearer (reads e) = cc
      bearer (skips e) = cc
      bearer (bears e) = e
      bearer (matches jti token e f g) = cc

  -- A route that requires a scope refuses each user that the first guard lets pass.
  scope_guard-jwt_guard :
      (route : Route) (request : HttpRequest) (user : Option SessionUser) (scope : Text)
      → guard route request ≡ ok user
      → filled route.required_scope ≡ some scope
      → scope_guard route user ≡ err no_scope
  unfolding scope_guard
  scope_guard-jwt_guard route request user scope h e = rw e (
      unscoped user (
        jwt_guard→Known authenticate is_blacklisted within_limit stored_token route request user h))
    where
      unscoped :
          (user : Option SessionUser)
          → Known authenticate is_blacklisted within_limit stored_token route request user
          → check_scope (some scope) (user_scope user) ≡ err no_scope
      unscoped none k = refl
      unscoped (some u) (somebody payload e a r) = refl
