-- ===== src/Frontend/RouteRoles.antt =====
-- The roles and paths that the table of frontend/src/middleware.ts is about.
use hub_assist.Common.{
  ◌≡◌, ◌⊎◌, inl, inr, refl, sym, true, false, Option, none, some, List, [], ◌∷◌, ◌++◌,
  if◌then◌else◌, Text, text_eq, text_eq→eq, text_eq_refl, includes, All, arith, Bool-cases,
}
use mathlib.Core.List.{Memᴰ}
use mathlib.Core.Path.{subst}
use hub_assist.Frontend.Routes.{
  Roles, DecodedToken, roles_of, given, some_in, has_required_role, protected_routes, matched_route,
  is_entry,
}

includes→Memᴰ : (list : List Text) (text : Text) → includes list text ≡ true → Memᴰ text list
includes→Memᴰ [] text h = cc
includes→Memᴰ (t ∷ ts) text h = elim (Bool-cases (text_eq t text)) [
  | inl e ↦ Memᴰ.head (sym (text_eq→eq t text e))
  | inr e ↦
      Memᴰ.tail
        (includes→Memᴰ ts text (subst (λ x. (if x then true else includes ts text) ≡ true) e h))
]

Memᴰ→includes : (list : List Text) (text : Text) → Memᴰ text list → includes list text ≡ true
Memᴰ→includes [] text m = elim m [ ]
Memᴰ→includes (t ∷ ts) text (Memᴰ.head e) = rw (sym e, text_eq_refl text) refl
Memᴰ→includes (t ∷ ts) text (Memᴰ.tail m) = let ih = Memᴰ→includes ts text m in ground (arith, ih)

-- A role that both lists hold.
abbrev Shared : List Text → List Text → Type 0
Shared required held = (role : Text) × Memᴰ role required × Memᴰ role held

some_in→Shared : (required held : List Text) → some_in required held ≡ true → Shared required held
some_in→Shared [] held h = cc
some_in→Shared (r ∷ rs) held h = elim (Bool-cases (includes held r)) [
  | inl e ↦ (r, Memᴰ.head refl, includes→Memᴰ held r e)
  | inr e ↦
      let s =
        some_in→Shared rs held (subst (λ x. (if x then true else some_in rs held) ≡ true) e h) in
      (s.0, Memᴰ.tail s.1, s.2)
]

Shared→some_in :
    (required held : List Text) (role : Text)
    → Memᴰ role required
    → Memᴰ role held
    → some_in required held ≡ true
Shared→some_in [] held role n m = elim n [ ]
Shared→some_in (r ∷ rs) held role (Memᴰ.head e) m =
    rw (Memᴰ→includes held r (subst (λ x. Memᴰ x held) e m)) refl
Shared→some_in (r ∷ rs) held role (Memᴰ.tail n) m =
    let ih = Shared→some_in rs held role n m in ground (arith, ih)

-- One role is both required and held, or none is required.
abbrev pub Meets : Option Roles → Option Roles → Type 0
Meets none held = Unit
Meets (some needed) none = ⊥
Meets (some needed) (some held) = Shared (roles_of needed) (roles_of held)

pub Meets-of :
    (payload : DecodedToken) (required : Option Roles)
    → has_required_role payload required ≡ true
    → Meets (given required) (given payload.role)
unfolding has_required_role
Meets-of payload required h = of_given (given required) (given payload.role) h
  where
    of_given :
        (needed held : Option Roles)
        → (elim needed [
          | none ↦ true
          | some n ↦ elim held [ none ↦ false | some r ↦ some_in (roles_of n) (roles_of r) ]
        ])
          ≡ true
        → Meets needed held
    of_given none held e = tt
    of_given (some n) none e = cc
    of_given (some n) (some r) e = some_in→Shared (roles_of n) (roles_of r) e

pub Meets-has_required_role :
    (payload : DecodedToken) (required : Option Roles)
    → Meets (given required) (given payload.role)
    → has_required_role payload required ≡ true
unfolding has_required_role
Meets-has_required_role payload required h = of_given (given required) (given payload.role) h
  where
    of_given :
        (needed held : Option Roles)
        → Meets needed held
        → (elim needed [
          | none ↦ true
          | some n ↦ elim held [ none ↦ false | some r ↦ some_in (roles_of n) (roles_of r) ]
        ])
          ≡ true
    of_given none held e = refl
    of_given (some n) none e = elim e [ ]
    of_given (some n) (some r) e = Shared→some_in (roles_of n) (roles_of r) e.0 e.1 e.2

-- The route itself, or a path behind it.
abbrev pub Below : Text → Text → Type 0
Below route path = (path ≡ route) ⊎ ((rest : Text) × (path ≡ route ++ 47 ∷ rest))

abbrev pub Guards : Text × Option Roles → Type 0
Guards route =
    (path : Text)
    → Below route.0 path
    → (matched_route protected_routes path ≡ some route.1) × (is_entry path ≡ false)

pub guards : All Guards protected_routes
guards = (
  λ path b. elim b [ inl e ↦ rw e (refl, refl) | inr (rest, e) ↦ rw e (refl, refl) ],
  (
    λ path b. elim b [ inl e ↦ rw e (refl, refl) | inr (rest, e) ↦ rw e (refl, refl) ],
    (
      λ path b. elim b [ inl e ↦ rw e (refl, refl) | inr (rest, e) ↦ rw e (refl, refl) ],
      (λ path b. elim b [ inl e ↦ rw e (refl, refl) | inr (rest, e) ↦ rw e (refl, refl) ], tt),
    ),
  ),
)
