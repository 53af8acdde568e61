-- ===== src/Booking/Policies.antt =====
-- The administration of the refund policies in backend/src/bookings/cancellation-policy.service.ts. The
-- column of the workspace type is unique in the database, which refuses a second row.
use hub_assist.Common.{
  ℕ, ◌≡◌, refl, true, not, Option, some, get_or, List, [], ◌∷◌, ◌++◌, if◌then◌else◌, find?-holds,
  filter, map, Result, ok, or_throw, throw_if, ◌>>=◌, ◌>>◌, Bool-cases, inl, inr,
}
use hub_assist.Pricing.Rules.{present}
use hub_assist.Booking.Model.{WorkspaceType, CancellationPolicy}
use hub_assist.Booking.Refund.{same_type, find_policy, effective_policy, brackets_of}

pub record UpdateCancellationPolicyDto : Type 0 where
  pub full_refund_hours_before : Option ℕ
  pub partial_refund_percent : Option ℕ
  pub partial_refund_hours_before : Option ℕ

pub data PolicyError : Type 0 where
  policy_not_found duplicate_workspace_type : PolicyError

abbrev pub Policies : Type 0 → Type 0
Policies A = Result PolicyError A

unfoldable pub find_by_workspace_type :
    List CancellationPolicy → WorkspaceType → Policies CancellationPolicy
find_by_workspace_type policies kind = or_throw (find_policy policies kind) policy_not_found

-- `create`; a `CreateCancellationPolicyDto` has the columns of a policy.
unfoldable pub create_policy :
    List CancellationPolicy → CancellationPolicy → Policies (List CancellationPolicy)
create_policy policies dto =
    throw_if (present (find_policy policies dto.workspace_type)) duplicate_workspace_type
    >> ok (policies ++ dto ∷ [])

-- `Object.assign(policy, dto)`.
unfoldable pub assign_policy : CancellationPolicy → UpdateCancellationPolicyDto → CancellationPolicy
assign_policy p dto = record p {
  full_refund_hours_before = get_or dto.full_refund_hours_before p.full_refund_hours_before;
  partial_refund_percent = get_or dto.partial_refund_percent p.partial_refund_percent;
  partial_refund_hours_before =
      get_or dto.partial_refund_hours_before p.partial_refund_hours_before;
}

unfoldable pub update_policy :
    List CancellationPolicy
    → WorkspaceType
    → UpdateCancellationPolicyDto
    → Policies (List CancellationPolicy)
update_policy policies kind dto = do
  policy ← find_by_workspace_type policies kind
  ok (map (λ p. if same_type p.workspace_type kind then assign_policy policy dto else p) policies)

unfoldable pub remove_policy :
    List CancellationPolicy → WorkspaceType → Policies (List CancellationPolicy)
remove_policy policies kind = do
  policy ← find_by_workspace_type policies kind
  ok (filter (λ p. not (same_type p.workspace_type kind)) policies)

find_policy-update :
    (kind : WorkspaceType) (p q : CancellationPolicy) (policies : List CancellationPolicy)
    → find_policy policies kind ≡ some p
    → same_type q.workspace_type kind ≡ true
    → find_policy (map (λ x. if same_type x.workspace_type kind then q else x) policies) kind
      ≡ some q
unfolding find_policy
find_policy-update kind p q [] h same = cc
find_policy-update kind p q (x ∷ xs) h same = elim (Bool-cases (same_type x.workspace_type kind)) [
  | inl hit ↦ rw hit (rw same refl)
  | inr miss ↦ rw miss (rw miss (find_policy-update kind p q xs (rw miss at h) same))
]

-- After `update` of the policy of a workspace type, the policy in force for that type is the one that was
-- there, with the values that the request gives in place of its own.
pub update_policy-effective_policy :
    (policies : List CancellationPolicy) (kind : WorkspaceType) (dto : UpdateCancellationPolicyDto)
    (p : CancellationPolicy)
    → find_policy policies kind ≡ some p
    → (policies' : List CancellationPolicy) × (update_policy policies kind dto ≡ ok policies')
      × (effective_policy policies' (some kind) ≡ brackets_of (assign_policy p dto))
unfolding update_policy find_by_workspace_type effective_policy assign_policy
update_policy-effective_policy policies kind dto p found = (
  map (λ x. if same_type x.workspace_type kind then assign_policy p dto else x) policies,
  rw found refl,
  rw
      (find_policy-update kind p (assign_policy p dto) policies found (
        find?-holds (λ r. same_type r.workspace_type kind) policies p
          (unfold find_policy in found)))
      refl,
)
