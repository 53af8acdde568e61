-- ===== src/Delivery/Backoff.antt =====
-- backend/src/utils/retry-backoff.ts, and what the two tables of retried rows share: the `LIMIT` of a
-- query and the update of a row by its key.
use hub_assist.Common.{
  take, ℕ, zero, suc, ◌+◌, ◌-◌, ◌*◌, ◌^◌, Bool, List, [], ◌∷◌, leb, All, filter, if◌then◌else◌,
  arith,
}

-- `Math.max(attempts - 1, 0)` is the difference of natural numbers.
unfoldable pub calculate_next_retry_at : ℕ → ℕ → ℕ
calculate_next_retry_at attempts now = now + 2 ^ (attempts - 1) * 1000

unfoldable pub is_dead_letter : ℕ → ℕ → Bool
is_dead_letter attempts max_attempts = leb max_attempts attempts

module _ {A : Type 0} where
  -- `update(id, …)` and `save` of a row.
  abbrev pub replace_where : (A → Bool) → A → List A → List A
  replace_where p row [] = []
  replace_where p row (x ∷ xs) = (if p x then row else x) ∷ replace_where p row xs

  pub All-take : (P : A → Type 0) (n : ℕ) (xs : List A) → All P xs → All P (take n xs)
  All-take P zero xs h = tt
  All-take P (suc n) [] h = tt
  All-take P (suc n) (x ∷ xs) h = (h.0, All-take P n xs h.1)

  pub All-filter : (P : A → Type 0) (p : A → Bool) (xs : List A) → All P xs → All P (filter p xs)
  All-filter P p [] h = tt
  All-filter P p (x ∷ xs) h =
      let ih = All-filter P p xs h.1 in let here = h.0 in ground (arith, ih, here)

  pub All-replace_where :
      (P : A → Type 0) (p : A → Bool) (row : A) (xs : List A)
      → P row
      → All P xs
      → All P (replace_where p row xs)
  All-replace_where P p row [] r h = tt
  All-replace_where P p row (x ∷ xs) r h =
      let ih = All-replace_where P p row xs r h.1 in let here = h.0 in ground (arith, ih, here)
