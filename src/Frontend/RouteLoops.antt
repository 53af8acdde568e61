-- ===== src/Frontend/RouteLoops.antt =====
-- Where the redirects of frontend/src/middleware.ts lead.
use hub_assist.Common.{
  ℕ, zero, suc, ◌≡◌, ◌↔◌, inl, inr, refl, sym, ap, ◌∙◌, true, false, Option, none, some, Text,
  Bool-cases, Option-cases,
}
use hub_assist.Frontend.Routes.{
  DecodedToken, has_required_role, next, to_dashboard, to_login, truthy, decode_token, is_expired,
  is_token_expired, middleware, follow, login_path, dashboard_path, check_payload, after_answer,
}
use hub_assist.Frontend.RoutesLaws.{is_token_expired-decoded}

module _ (fields : Text → Option DecodedToken) (now : ℕ) where
  -- What a cookie does to the redirects: none that is truthy, a token that expired, one that did not.
  data Kind (cookie : Option Text) : Type 0 where
    absent : truthy cookie ≡ none → Kind cookie
    stale :
        (token : Text)
        → truthy cookie ≡ some token
        → is_token_expired fields now token ≡ true
        → Kind cookie
    fresh :
        (token : Text) (payload : DecodedToken)
        → truthy cookie ≡ some token
        → decode_token fields token ≡ some payload
        → is_token_expired fields now token ≡ false
        → Kind cookie

  expired_absurd : is_expired fields now none ≡ false → ⊥
  unfolding is_expired
  expired_absurd e = cc

  kind : (cookie : Option Text) → Kind cookie
  kind cookie = elim (Option-cases (truthy cookie)) [
    | inl e ↦ absent e
    | inr (token, e) ↦ elim (Bool-cases (is_token_expired fields now token)) [
      | inl x ↦ stale token e x
      | inr x ↦ elim (Option-cases (decode_token fields token)) [
        | inl d ↦ absurd (expired_none token d x)
        | inr (payload, d) ↦ fresh token payload e d x
      ]
    ]
  ]
    where
      expired_none :
          (token : Text)
          → decode_token fields token ≡ none
          → is_token_expired fields now token ≡ false
          → ⊥
      expired_none token d x =
          let e = sym (is_token_expired-decoded fields now token none d) ∙ x in expired_absurd e

  login_open :
      (cookie : Option Text) → truthy cookie ≡ none → middleware fields now cookie login_path ≡ next
  unfolding middleware
  login_open cookie e = rw e refl

  login_shut :
      (cookie : Option Text) (token : Text)
      → truthy cookie ≡ some token
      → middleware fields now cookie login_path ≡ to_dashboard
  unfolding middleware
  login_shut cookie token e = rw e refl

  dashboard_shut :
      (cookie : Option Text) (token : Text)
      → truthy cookie ≡ some token
      → is_token_expired fields now token ≡ true
      → middleware fields now cookie dashboard_path ≡ to_login dashboard_path
  unfolding middleware
  dashboard_shut cookie token e x = rw e (shut (decode_token fields token))
    where
      shut :
          (o : Option DecodedToken)
          → check_payload fields now token dashboard_path none o ≡ to_login dashboard_path
      shut none = refl
      shut (some payload) = rw x refl

  dashboard_open :
      (cookie : Option Text) (token : Text) (payload : DecodedToken)
      → truthy cookie ≡ some token
      → decode_token fields token ≡ some payload
      → is_token_expired fields now token ≡ false
      → middleware fields now cookie dashboard_path ≡ next
  unfolding middleware has_required_role
  dashboard_open cookie token payload e d x = rw (e, d, x) refl

  -- Stale cookies
  abbrev pub IsStale : Option Text → Type 0
  IsStale cookie =
      (token : Text) × (truthy cookie ≡ some token) × (is_token_expired fields now token ≡ true)

  abbrev Loops : ℕ → Option Text → Type 0
  Loops n cookie =
      (follow fields n now cookie login_path ≡ none)
      × (follow fields n now cookie dashboard_path ≡ none)

  IsStale-Loops : (cookie : Option Text) → IsStale cookie → (n : ℕ) → Loops n cookie
  unfolding follow
  IsStale-Loops cookie s zero = (refl, refl)
  IsStale-Loops cookie s (suc n) =
      let ih = IsStale-Loops cookie s n in
      (rw (login_shut cookie s.0 s.1) ih.1, rw (dashboard_shut cookie s.0 s.1 s.2) ih.0)

  some-none : {a : Text} → ◌≡◌ {A = Option Text} (some a) none → ⊥
  some-none e = cc

  reached :
      (cookie : Option Text) (token : Text) (payload : DecodedToken)
      → truthy cookie ≡ some token
      → decode_token fields token ≡ some payload
      → is_token_expired fields now token ≡ false
      → follow fields 2 now cookie login_path ≡ some dashboard_path
  unfolding follow
  reached cookie token payload e d x =
      rw (login_shut cookie token e, dashboard_open cookie token payload e d x) refl

  -- The redirects from the log-in page never end exactly when the cookie has a token that is expired or
  -- malformed.
  pub follow-forever_iff :
      (cookie : Option Text)
      → ((n : ℕ) → follow fields n now cookie login_path ≡ none) ↔ IsStale cookie
  unfolding follow
  follow-forever_iff cookie = (λ h. of_kind h (kind cookie), λ s n. (IsStale-Loops cookie s n).0)
    where
      of_kind :
          ((n : ℕ) → follow fields n now cookie login_path ≡ none) → Kind cookie → IsStale cookie
      of_kind h (absent e) = absurd (
          some-none (
            sym (
              ap (after_answer fields (follow fields zero now cookie) login_path)
                (login_open cookie e))
            ∙ h 1))
      of_kind h (stale token e x) = (token, e, x)
      of_kind h (fresh token payload e d x) =
          absurd (some-none (sym (reached cookie token payload e d x) ∙ h 2))
