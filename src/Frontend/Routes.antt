-- ===== src/Frontend/Routes.antt =====
-- frontend/src/lib/auth/decodeToken.ts and the `middleware` of frontend/src/middleware.ts. A text is the
-- list of its UTF-16 code units; `now` is in milliseconds, and the claim `exp` is in whole seconds. `fields`
-- is `JSON.parse(atob(...))`: none where one of them throws or the value is falsy. The token is the cookie
-- of this name, and none where there is no cookie.
use hub_assist.Common.{
  ℕ, zero, suc, ◌*◌, Bool, true, false, ◌&&◌, ◌||◌, Option, none, some, List, [], ◌∷◌, ◌++◌, leb,
  if◌then◌else◌, Text, text_eq, starts_with, includes, split,
}
use hub_assist.Pagination.Cursor.{replace}

-- `string | string[]`.
pub data Roles : Type 0 where
  one : Text → Roles
  many : List Text → Roles

-- `exp` where it is a number, and `role` where there is one.
pub record DecodedToken : Type 0 where
  pub exp : Option ℕ
  pub role : Option Roles

abbrev pub roles_of : Roles → List Text
roles_of (one role) = role ∷ []
roles_of (many roles) = roles

-- A role that a test like `!requiredRole` lets pass: not null, and not the empty string.
abbrev pub given : Option Roles → Option Roles
given none = none
given (some (one [])) = none
given (some (one (c ∷ cs))) = some (one (c ∷ cs))
given (some (many roles)) = some (many roles)

-- `token.split(".")[1]`, where it is not empty.
abbrev pub payload_segment : Text × List Text → Option Text
payload_segment (head, []) = none
payload_segment (head, [] ∷ rest) = none
payload_segment (head, (c ∷ cs) ∷ rest) = some (c ∷ cs)

abbrev pub some_in : List Text → List Text → Bool
some_in [] held = false
some_in (role ∷ required) held =
    let rest = some_in required held in if includes held role then true else rest

unfoldable pub has_required_role : DecodedToken → Option Roles → Bool
has_required_role payload required = elim (given required) [
  | none ↦ true
  | some needed ↦ elim (given payload.role) [
    | none ↦ false
    | some held ↦ some_in (roles_of needed) (roles_of held)
  ]
]

abbrev pub login_path : Text
login_path = 47 ∷ 108 ∷ 111 ∷ 103 ∷ 105 ∷ 110 ∷ []

abbrev pub register_path : Text
register_path = 47 ∷ 114 ∷ 101 ∷ 103 ∷ 105 ∷ 115 ∷ 116 ∷ 101 ∷ 114 ∷ []

abbrev pub dashboard_path : Text
dashboard_path = 47 ∷ 100 ∷ 97 ∷ 115 ∷ 104 ∷ 98 ∷ 111 ∷ 97 ∷ 114 ∷ 100 ∷ []

abbrev pub profile_path : Text
profile_path = 47 ∷ 112 ∷ 114 ∷ 111 ∷ 102 ∷ 105 ∷ 108 ∷ 101 ∷ []

abbrev pub settings_path : Text
settings_path = 47 ∷ 115 ∷ 101 ∷ 116 ∷ 116 ∷ 105 ∷ 110 ∷ 103 ∷ 115 ∷ []

abbrev pub admin_path : Text
admin_path = 47 ∷ 97 ∷ 100 ∷ 109 ∷ 105 ∷ 110 ∷ []

-- `protectedRoutes`, in its order.
abbrev pub protected_routes : List (Text × Option Roles)
protected_routes =
    (dashboard_path, none)
    ∷ (profile_path, none)
    ∷ (settings_path, none)
    ∷ (admin_path, some (one (97 ∷ 100 ∷ 109 ∷ 105 ∷ 110 ∷ [])))
    ∷ []

-- `pathname === route || pathname.startsWith(`${route}/`)`.
abbrev pub covers : Text → Text → Bool
covers path route = text_eq path route || starts_with path (route ++ 47 ∷ [])

-- The required role of the first route that covers the path.
abbrev pub matched_route : List (Text × Option Roles) → Text → Option (Option Roles)
matched_route [] path = none
matched_route ((route, required) ∷ routes) path =
    let rest = matched_route routes path in if covers path route then some required else rest

-- What the middleware answers; a redirect to the log-in carries the path.
pub data Answer : Type 0 where
  next : Answer
  to_dashboard : Answer
  to_login : Text → Answer

abbrev pub is_entry : Text → Bool
is_entry path = text_eq path login_path || text_eq path register_path

-- A cookie that a test like `!token` lets pass.
abbrev pub truthy : Option Text → Option Text
truthy none = none
truthy (some []) = none
truthy (some (c ∷ cs)) = some (c ∷ cs)

module _ (fields : Text → Option DecodedToken) where
  unfoldable pub decode_token : Text → Option DecodedToken
  decode_token token = elim (payload_segment (split 46 token)) [
    | none ↦ none
    | some segment ↦ fields (replace 95 47 (replace 45 43 segment))
  ]

  unfoldable pub is_expired : ℕ → Option DecodedToken → Bool
  is_expired now none = true
  is_expired now (some payload) = elim payload.exp [ none ↦ true | some exp ↦ leb (exp * 1000) now ]

  unfoldable pub is_token_expired : ℕ → Text → Bool
  unfolding is_expired
  is_token_expired now token = is_expired now (decode_token token)

  abbrev pub check_payload : ℕ → Text → Text → Option Roles → Option DecodedToken → Answer
  check_payload now token path required none = to_login path
  check_payload now token path required (some payload) =
      if is_token_expired now token
      then to_login path
      else if has_required_role payload required
      then next
      else to_dashboard

  -- What is answered for a protected route.
  abbrev pub guard_route : ℕ → Option Text → Text → Option Roles → Answer
  guard_route now none path required = to_login path
  guard_route now (some token) path required =
      check_payload now token path required (decode_token token)

  abbrev pub guard_matched : ℕ → Option Text → Text → Option (Option Roles) → Answer
  guard_matched now token path none = next
  guard_matched now token path (some required) = guard_route now token path required

  abbrev pub is_there : Option Text → Bool
  is_there none = false
  is_there (some token) = true

  unfoldable pub middleware : ℕ → Option Text → Text → Answer
  middleware now cookie path =
      if is_there (truthy cookie) && is_entry path
      then to_dashboard
      else guard_matched now (truthy cookie) path (matched_route protected_routes path)

  -- A browser that follows the redirects, so many of them at most: where it ends, if it does.
  abbrev pub after_answer : (Text → Option Text) → Text → Answer → Option Text
  after_answer visit path next = some path
  after_answer visit path to_dashboard = visit dashboard_path
  after_answer visit path (to_login from) = visit login_path

  unfoldable pub follow : ℕ → ℕ → Option Text → Text → Option Text
  unfolding middleware
  follow zero now cookie path = none
  follow (suc redirects) now cookie path =
      after_answer (follow redirects now cookie) path (middleware now cookie path)
