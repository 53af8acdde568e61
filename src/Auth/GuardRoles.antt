-- ===== src/Auth/GuardRoles.antt =====
-- The roles that RolesGuard of backend/src/common/guards asks for.
use hub_assist.Common.{
  ◌≡◌, inl, inr, refl, sym, Bool, true, false, not, Option, none, some, List, [], ◌∷◌,
  if◌then◌else◌, ok, throw_if, Bool-cases, arith,
}
use mathlib.Core.List.{Memᴰ}
use mathlib.Core.Path.{subst}
use hub_assist.Dashboard.Activity.{UserRole, admin, member, staff}
use hub_assist.Auth.Guards.{
  SessionUser, GuardError, insufficient_permissions, check_roles, role_eq, role_in,
}

role_eq→eq : (a b : UserRole) → role_eq a b ≡ true → a ≡ b
role_eq→eq admin admin h = refl
role_eq→eq member member h = refl
role_eq→eq staff staff h = refl
role_eq→eq admin member h = cc
role_eq→eq admin staff h = cc
role_eq→eq member admin h = cc
role_eq→eq member staff h = cc
role_eq→eq staff admin h = cc
role_eq→eq staff member h = cc

role_eq_refl : (a : UserRole) → role_eq a a ≡ true
role_eq_refl admin = refl
role_eq_refl member = refl
role_eq_refl staff = refl

pub role_in→Memᴰ :
    (roles : List UserRole) (role : UserRole) → role_in roles role ≡ true → Memᴰ role roles
role_in→Memᴰ [] role h = cc
role_in→Memᴰ (r ∷ rs) role h = elim (Bool-cases (role_eq r role)) [
  | inl e ↦ Memᴰ.head (sym (role_eq→eq r role e))
  | inr e ↦
      Memᴰ.tail
        (role_in→Memᴰ rs role (subst (λ x. (if x then true else role_in rs role) ≡ true) e h))
]

pub Memᴰ→role_in :
    (roles : List UserRole) (role : UserRole) → Memᴰ role roles → role_in roles role ≡ true
Memᴰ→role_in [] role m = elim m [ ]
Memᴰ→role_in (r ∷ rs) role (Memᴰ.head e) = rw (sym e, role_eq_refl role) refl
Memᴰ→role_in (r ∷ rs) role (Memᴰ.tail m) = let ih = Memᴰ→role_in rs role m in ground (arith, ih)

-- The route names no role, or the user has one of those that it names.
abbrev pub HasRole : Option (List UserRole) → Option SessionUser → Type 0
HasRole none user = Unit
HasRole (some roles) none = ⊥
HasRole (some roles) (some user) = Memᴰ user.role roles

pub not_thrown : (b : Bool) (e : GuardError) → throw_if (not b) e ≡ ok tt → b ≡ true
not_thrown true e h = refl
not_thrown false e h = cc

pub check_roles→HasRole :
    (roles : Option (List UserRole)) (user : Option SessionUser)
    → check_roles roles user ≡ ok tt
    → HasRole roles user
check_roles→HasRole none user h = tt
check_roles→HasRole (some roles) none h = cc
check_roles→HasRole (some roles) (some u) h =
    role_in→Memᴰ roles u.role (not_thrown (role_in roles u.role) insufficient_permissions h)

pub HasRole-check_roles :
    (roles : Option (List UserRole)) (user : Option SessionUser)
    → HasRole roles user
    → check_roles roles user ≡ ok tt
HasRole-check_roles none user h = refl
HasRole-check_roles (some roles) none h = elim h [ ]
HasRole-check_roles (some roles) (some u) h = rw (Memᴰ→role_in roles u.role h) refl
