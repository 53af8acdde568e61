-- ===== src/Auth/GuardTests.antt =====
-- The guards of backend/src/app.module.ts on a log-in without a header, and on an admin's request.
use hub_assist.Common.{
  ◌≡◌, ◌↔◌, refl, Bool, true, false, Option, some, none, [], ◌∷◌, Text, ok, err,
}
use hub_assist.Dashboard.Activity.{admin, member}
use hub_assist.Auth.Guards.{
  Route, JwtPayload, HttpRequest, post, delete, get, pass_guards, jwt_guard, has_bearer, user_of,
  no_session, pass_others, csrf_guard, roles_guard, get_tracker,
}
use hub_assist.Auth.GuardLaws.{IsLetIn, pass_guards_iff, pass_guards_public_iff}

abbrev payload : JwtPayload
payload = record { sub = 49 ∷ []; role = admin; jti = some (50 ∷ []); scope = some (97 ∷ []) }

-- Any header is the admin's token.
abbrev authenticate : Option Text → Option JwtPayload
authenticate none = none
authenticate (some header) = some payload

abbrev nothing_revoked : Text → Bool
nothing_revoked jti = false

abbrev no_limit : Text → Bool
no_limit tracker = true

abbrev no_token : Text → Option Text
no_token jti = none

abbrev login_route : Route
login_route = record {
  is_public = true;
  roles = none;
  class_roles = none;
  skip_csrf = false;
  required_scope = none;
}

abbrev admins : Route
admins = record {
  is_public = false;
  roles = some (member ∷ admin ∷ []);
  class_roles = none;
  skip_csrf = false;
  required_scope = some (97 ∷ []);
}

abbrev bare : HttpRequest
bare = record { method = post; authorization = none; csrf_token = none; ip = none }

abbrev reading : HttpRequest
reading = record { method = get; authorization = some (66 ∷ []); csrf_token = none; ip = none }

login_refused :
    pass_guards authenticate nothing_revoked no_limit no_token login_route bare ≡ err no_session
unfolding pass_guards pass_others jwt_guard csrf_guard roles_guard get_tracker
login_refused = refl

pass_guards_iff_example :
    (pass_guards authenticate nothing_revoked no_limit no_token admins reading
      ≡ ok (some (user_of payload)))
    ↔ IsLetIn authenticate nothing_revoked no_limit no_token admins reading (some (user_of payload))
pass_guards_iff_example =
    pass_guards_iff authenticate nothing_revoked no_limit no_token admins reading
      (some (user_of payload))

pass_guards_public_iff_example :
    (pass_guards authenticate nothing_revoked no_limit no_token login_route bare ≡ ok none)
    ↔ (has_bearer bare.authorization ≡ true)
pass_guards_public_iff_example =
    pass_guards_public_iff authenticate nothing_revoked no_limit no_token login_route bare refl refl
      refl refl refl

-- The prices of a controller whose class names the admin, and a member who deletes one.
abbrev prices : Route
prices = record {
  is_public = false;
  roles = none;
  class_roles = some (admin ∷ []);
  skip_csrf = false;
  required_scope = none;
}

abbrev member_payload : JwtPayload
member_payload = record payload { role = member }

abbrev deleting : HttpRequest
deleting = record {
  method = delete;
  authorization = some (66 ∷ 101 ∷ 97 ∷ 114 ∷ 101 ∷ 114 ∷ 32 ∷ 49 ∷ []);
  csrf_token = none;
  ip = none;
}

member_let_in :
    pass_guards (λ header. some member_payload) nothing_revoked no_limit no_token prices deleting
    ≡ ok (some (user_of member_payload))
unfolding pass_guards pass_others jwt_guard csrf_guard roles_guard get_tracker
member_let_in = refl
