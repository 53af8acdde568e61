-- ===== src/Frontend/RoutesTests.antt =====
-- frontend/src/middleware.ts on the cookie `h.p` of an admin.
use hub_assist.Common.{ℕ, ◌≡◌, ◌↔◌, refl, some, none, Option, [], ◌∷◌, Text, inl}
use mathlib.Core.List.{Memᴰ}
use hub_assist.Frontend.Routes.{
  DecodedToken, one, next, middleware, follow, login_path, admin_path, decode_token,
  is_token_expired, is_expired, has_required_role,
}
use hub_assist.Frontend.RoutesLaws.{IsAdmitted, middleware-next_iff}
use hub_assist.Frontend.RouteLoops.{IsStale, follow-forever_iff}

-- "admin"
abbrev admin_role : Text
admin_role = 97 ∷ 100 ∷ 109 ∷ 105 ∷ 110 ∷ []

-- Every segment is an admin's token until the ninth second.
abbrev fields : Text → Option DecodedToken
fields text = some (record { exp = some 9; role = some (one admin_role) })

abbrev cookie : Option Text
cookie = some (104 ∷ 46 ∷ 112 ∷ [])

admin_let_in : middleware fields 8999 cookie (admin_path) ≡ next
unfolding middleware decode_token is_token_expired is_expired has_required_role
admin_let_in = refl

late_loop : follow fields 9 9000 cookie login_path ≡ none
unfolding follow middleware decode_token is_token_expired is_expired has_required_role
late_loop = refl

middleware-next_iff_example :
    (middleware fields 8999 cookie admin_path ≡ next)
    ↔ IsAdmitted fields 8999 cookie (some (one admin_role))
middleware-next_iff_example =
    middleware-next_iff fields 8999 cookie admin_path admin_path (some (one admin_role))
      (Memᴰ.tail (Memᴰ.tail (Memᴰ.tail (Memᴰ.head refl)))) (inl refl)

follow-forever_iff_example :
    ((n : ℕ) → follow fields n 9000 cookie login_path ≡ none) ↔ IsStale fields 9000 cookie
follow-forever_iff_example = follow-forever_iff fields 9000 cookie
