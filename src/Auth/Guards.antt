-- ===== src/Auth/Guards.antt =====
-- What stands before a handler, in the order of `APP_GUARD` in backend/src/app.module.ts: JwtAuthGuard with
-- `validate` of jwt.strategy.ts, the throttler of common/guards, RolesGuard, and CsrfGuard with verifyToken
-- of csrf.service.ts (backend/src/auth and backend/src/common/guards), and ScopeGuard, which a route may add.
-- Texts are lists of UTF-16 code units. The section's parameters are what passport-jwt reads of the
-- `Authorization` header, the black list of token ids, the throttler's verdict on a tracker, and the
-- tokens that the cache holds for the sessions.
use hub_assist.Common.{
  Bool, true, false, not, Option, none, some, List, [], ◌∷◌, if◌then◌else◌, Result, ok, err,
  throw_if, ◌>>◌, ◌>>=◌, Text, text_eq, starts_with, includes, split,
}
use hub_assist.Dashboard.Activity.{UserRole, admin, member, staff}

pub data Method : Type 0 where
  get post patch delete put options : Method

-- What the decorators say: `@Public()` of the handler or its class, `@Roles(...)` of the handler and of its
-- class, and `@RequireScope(...)` of the handler. `skip_csrf` is whether the guard's `reflector.get(SkipCsrf, ...)`
-- finds a mark; `SkipCsrf` itself makes another decorator at each call, whose mark is not found there.
pub record Route : Type 0 where
  pub is_public : Bool
  pub roles : Option (List UserRole)
  pub class_roles : Option (List UserRole)
  pub skip_csrf : Bool
  pub required_scope : Option Text

-- The claims of a token: those that auth.service.ts signs, and a scope, which oauth.service.ts signs.
pub record JwtPayload : Type 0 where
  pub sub : Text
  pub role : UserRole
  pub jti : Option Text
  pub scope : Option Text

-- `request.user`.
pub record SessionUser : Type 0 where
  pub id : Text
  pub role : UserRole
  pub jti : Option Text
  pub scope : Option Text

pub record HttpRequest : Type 0 where
  pub method : Method
  pub authorization : Option Text
  pub csrf_token : Option Text
  pub ip : Option Text

pub data GuardError : Type 0 where
  unauthorized revoked throttled insufficient_permissions no_session csrf_missing csrf_invalid :
      GuardError
  no_scope wrong_scope : GuardError

-- A string that a test like `!user.jti` lets pass.
abbrev pub filled : Option Text → Option Text
filled none = none
filled (some []) = none
filled (some (c ∷ cs)) = some (c ∷ cs)

abbrev pub changes_state : Method → Bool
changes_state get = false
changes_state options = false
changes_state post = true
changes_state patch = true
changes_state delete = true
changes_state put = true

-- `authHeader?.startsWith('Bearer ')`.
abbrev pub has_bearer : Option Text → Bool
has_bearer none = false
has_bearer (some header) = starts_with header (66 ∷ 101 ∷ 97 ∷ 114 ∷ 101 ∷ 114 ∷ 32 ∷ [])

abbrev pub role_eq : UserRole → UserRole → Bool
role_eq admin admin = true
role_eq member member = true
role_eq staff staff = true
role_eq a b = false

-- `roles.includes(role)`.
abbrev pub role_in : List UserRole → UserRole → Bool
role_in [] role = false
role_in (r ∷ rs) role = if role_eq r role then true else role_in rs role

-- `canActivate` of RolesGuard, for the roles of the handler's decorator, which are all that it reads.
abbrev pub check_roles : Option (List UserRole) → Option SessionUser → Result GuardError (Unit {0})
check_roles none user = ok tt
check_roles (some roles) none = err insufficient_permissions
check_roles (some roles) (some user) =
    throw_if (not (role_in roles user.role)) insufficient_permissions

unfoldable pub roles_guard : Route → Option SessionUser → Result GuardError (Unit {0})
roles_guard route user = check_roles route.roles user

-- "anonymous"
abbrev pub anonymous : Text
anonymous = 97 ∷ 110 ∷ 111 ∷ 110 ∷ 121 ∷ 109 ∷ 111 ∷ 117 ∷ 115 ∷ []

abbrev pub ip_or_anonymous : Option Text → Text
ip_or_anonymous none = anonymous
ip_or_anonymous (some ip) = ip

unfoldable pub get_tracker : HttpRequest → Option SessionUser → Text
get_tracker request none = ip_or_anonymous request.ip
get_tracker request (some user) = user.id

abbrev pub user_scope : Option SessionUser → Option Text
user_scope none = none
user_scope (some user) = filled user.scope

-- `canActivate` of ScopeGuard, for the scope of the decorator and that of the user.
abbrev pub check_scope : Option Text → Option Text → Result GuardError (Unit {0})
check_scope none scope = ok tt
check_scope (some required) none = err no_scope
check_scope (some required) (some scope) =
    let parts = split 32 scope in throw_if (not (includes (parts.0 ∷ parts.1) required)) wrong_scope

unfoldable pub scope_guard : Route → Option SessionUser → Result GuardError (Unit {0})
scope_guard route user = check_scope (filled route.required_scope) (user_scope user)

abbrev pub is_revoked : (Text → Bool) → Option Text → Bool
is_revoked is_blacklisted none = false
is_revoked is_blacklisted (some jti) = is_blacklisted jti

-- What `validate` returns of a payload.
abbrev pub user_of : JwtPayload → SessionUser
user_of payload = record { id = payload.sub; role = payload.role; jti = payload.jti; scope = none }

-- `validate` of JwtStrategy.
abbrev pub validate : (Text → Bool) → JwtPayload → Result GuardError SessionUser
validate is_blacklisted payload =
    throw_if (is_revoked is_blacklisted (filled payload.jti)) revoked >> ok (user_of payload)

abbrev pub session_of : Option SessionUser → Option Text
session_of none = none
session_of (some user) = filled user.jti

-- `verifyToken`, for the token that the cache holds for the session.
abbrev pub verify_token : Option Text → Text → Bool
verify_token none token = false
verify_token (some stored) token = text_eq stored token

-- The end of `canActivate` of CsrfGuard: the session, and the token of the header.
abbrev pub check_session :
    (Text → Option Text) → Option Text → Option Text → Result GuardError (Unit {0})
check_session stored_token none token = err no_session
check_session stored_token (some jti) none = err csrf_missing
check_session stored_token (some jti) (some token) =
    throw_if (not (verify_token (stored_token jti) token)) csrf_invalid

module _ (authenticate : Option Text → Option JwtPayload) (is_blacklisted : Text → Bool)
    (within_limit : Text → Bool) (stored_token : Text → Option Text) where
  -- JwtAuthGuard: the user that it leaves on the request.
  abbrev pub validated : Option JwtPayload → Result GuardError (Option SessionUser)
  validated none = err unauthorized
  validated (some payload) = validate is_blacklisted payload >>= λ user. ok (some user)

  unfoldable pub jwt_guard : Route → HttpRequest → Result GuardError (Option SessionUser)
  jwt_guard route request =
      if route.is_public then ok none else validated (authenticate request.authorization)

  -- `canActivate` of CsrfGuard.
  unfoldable pub csrf_guard :
      Route → HttpRequest → Option SessionUser → Result GuardError (Unit {0})
  csrf_guard route request user =
      if not (changes_state request.method)
      then ok tt
      else if route.skip_csrf
      then ok tt
      else if has_bearer request.authorization
      then ok tt
      else check_session stored_token (session_of user) (filled request.csrf_token)

  -- The guards after the first, for the user that it left.
  unfoldable pub pass_others :
      Route → HttpRequest → Option SessionUser → Result GuardError (Option SessionUser)
  unfolding csrf_guard roles_guard get_tracker
  pass_others route request user =
      throw_if (not (within_limit (get_tracker request user))) throttled
      >> roles_guard route user
      >> csrf_guard route request user
      >> ok user

  -- The four global guards: the user that the handler sees.
  unfoldable pub pass_guards : Route → HttpRequest → Result GuardError (Option SessionUser)
  unfolding jwt_guard pass_others
  pass_guards route request = jwt_guard route request >>= pass_others route request
