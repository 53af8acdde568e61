-- ===== src/Frontend/RoutesLaws.antt =====
-- Whom frontend/src/middleware.ts lets pass.
use hub_assist.Common.{
  ℕ, ◌*◌, ◌<◌, ◌≡◌, ◌↔◌, inl, inr, refl, sym, ap, ◌∙◌, false, Option, none, some, Text, All-Memᴰ,
  arith, Bool-cases, Option-cases,
}
use mathlib.Core.List.{Memᴰ}
use hub_assist.Frontend.Routes.{
  Roles, DecodedToken, given, has_required_role, protected_routes, next, truthy, decode_token,
  is_expired, is_token_expired, middleware, guard_route, check_payload, is_there,
}
use hub_assist.Frontend.RouteRoles.{Meets, Meets-of, Meets-has_required_role, Below, Guards, guards}

module _ (fields : Text → Option DecodedToken) (now : ℕ) where
  -- A cookie that may open a route: a token that is there, that decodes, whose expiry is to come, and
  -- which holds one of the roles that the route requires.
  pub record IsAdmitted (cookie : Option Text) (required : Option Roles) : Type 0 where
    pub token : Text
    pub payload : DecodedToken
    pub expiry : ℕ
    pub held : truthy cookie ≡ some token
    pub decodes : decode_token fields token ≡ some payload
    pub expires : payload.exp ≡ some expiry
    pub later : now < expiry * 1000
    pub meets : Meets (given required) (given payload.role)

  not_expired :
      (payload : DecodedToken)
      → is_expired fields now (some payload) ≡ false
      → (expiry : ℕ) × (payload.exp ≡ some expiry) × (now < expiry * 1000)
  unfolding is_expired
  not_expired payload h = elim (Option-cases payload.exp) [
    | inl e ↦ absurd (ground (arith, e, h))
    | inr (x, e) ↦ (x, e, ground (arith, e, h))
  ]

  IsAdmitted-is_expired :
      (payload : DecodedToken) (expiry : ℕ)
      → payload.exp ≡ some expiry
      → now < expiry * 1000
      → is_expired fields now (some payload) ≡ false
  unfolding is_expired
  IsAdmitted-is_expired payload expiry e l = ground (arith, e, l)

  pub is_token_expired-decoded :
      (token : Text) (o : Option DecodedToken)
      → decode_token fields token ≡ o
      → is_token_expired fields now token ≡ is_expired fields now o
  unfolding is_token_expired
  is_token_expired-decoded token o e = ap (is_expired fields now) e

  check_payload→IsAdmitted :
      (cookie : Option Text) (token path : Text) (required : Option Roles) (o : Option DecodedToken)
      → truthy cookie ≡ some token
      → decode_token fields token ≡ o
      → check_payload fields now token path required o ≡ next
      → IsAdmitted cookie required
  check_payload→IsAdmitted cookie token path required none held decodes h = cc
  check_payload→IsAdmitted cookie token path required (some payload) held decodes h =
      elim (Bool-cases (is_token_expired fields now token)) [
        | inl e ↦ absurd (ground (arith, e, h))
        | inr e ↦ elim (Bool-cases (has_required_role payload required)) [
          | inl r ↦
              let x =
                not_expired payload
                  (sym (is_token_expired-decoded token (some payload) decodes) ∙ e) in
              record {
                token = token;
                payload = payload;
                expiry = x.0;
                held = held;
                decodes = decodes;
                expires = x.1;
                later = x.2;
                meets = Meets-of payload required r;
              }
          | inr r ↦ absurd (ground (arith, e, r, h))
        ]
      ]

  guard_route→IsAdmitted :
      (cookie o : Option Text) (path : Text) (required : Option Roles)
      → truthy cookie ≡ o
      → guard_route fields now o path required ≡ next
      → IsAdmitted cookie required
  guard_route→IsAdmitted cookie none path required e h = cc
  guard_route→IsAdmitted cookie (some token) path required e h =
      check_payload→IsAdmitted cookie token path required (decode_token fields token) e refl h

  IsAdmitted-guard_route :
      (cookie : Option Text) (path : Text) (required : Option Roles)
      → IsAdmitted cookie required
      → guard_route fields now (truthy cookie) path required ≡ next
  IsAdmitted-guard_route cookie path required a =
      rw
        (
          a.held,
          a.decodes,
          is_token_expired-decoded a.token (some a.payload) a.decodes,
          IsAdmitted-is_expired a.payload a.expiry a.expires a.later,
          Meets-has_required_role a.payload required a.meets,
        )
        refl

  middleware-guard_route :
      (cookie : Option Text) (path route : Text) (required : Option Roles)
      → Memᴰ (route, required) protected_routes
      → Below route path
      → middleware fields now cookie path ≡ guard_route fields now (truthy cookie) path required
  unfolding middleware
  middleware-guard_route cookie path route required m b =
      let g = All-Memᴰ Guards (route, required) protected_routes guards m path b in
      elim (Bool-cases (is_there fields (truthy cookie))) [
        | inl e ↦ rw (e, g.1, g.0) refl
        | inr e ↦ rw (e, g.0) refl
      ]

  -- A protected route and the paths behind it open exactly to a cookie with a token that decodes, whose
  -- expiry is still to come, and which holds one of the roles that the table requires for the route.
  pub middleware-next_iff :
      (cookie : Option Text) (path route : Text) (required : Option Roles)
      → Memᴰ (route, required) protected_routes
      → Below route path
      → (middleware fields now cookie path ≡ next) ↔ IsAdmitted cookie required
  middleware-next_iff cookie path route required m b =
      let e = middleware-guard_route cookie path route required m b in
      (
        λ h. guard_route→IsAdmitted cookie (truthy cookie) path required refl (sym e ∙ h),
        λ a. e ∙ IsAdmitted-guard_route cookie path required a,
      )
