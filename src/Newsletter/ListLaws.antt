-- ===== src/Newsletter/ListLaws.antt =====
-- The pages of `listSubscribers` of backend/src/newsletter/newsletter.service.ts.
use hub_assist.Common.{
  ℕ, zero, suc, ◌+◌, ◌-◌, ◌*◌, ◌≤◌, ◌≡◌, refl, ap, sym, ◌∙◌, [], ◌∷◌, ◌++◌, length, filter, take,
  take-all, arith,
}
use hub_assist.Newsletter.Service.{
  NewsletterSubscriber, Table, drop, list_subscribers, read_subscribers,
}

take-eq : (n m : ℕ) (rows : Table) → n ≡ m → take n rows ≡ take m rows
take-eq n m rows e = ap (λ k. take k rows) e

take_nil : (n : ℕ) → take {A = NewsletterSubscriber} n [] ≡ []
take_nil zero = refl
take_nil (suc n) = refl

before : (n : ℕ) → suc n - 1 ≡ n
before n = omega arith

take-drop : (n m : ℕ) (rows : Table) → take n rows ++ take m (drop n rows) ≡ take (n + m) rows
take-drop zero m rows = take-eq m (0 + m) rows (omega arith)
take-drop (suc n) m [] = take_nil m ∙ sym (take_nil (suc n + m))
take-drop (suc n) m (r ∷ rows) =
    ap (λ t. r ∷ t) (take-drop n m rows)
    ∙ take-eq (suc (n + m)) (suc n + m) (r ∷ rows) (omega arith)

read_subscribers-take :
    (pages limit : ℕ) (table : Table)
    → read_subscribers pages limit table ≡ take (pages * limit) (filter (λ s. s.is_confirmed) table)
unfolding read_subscribers list_subscribers
read_subscribers-take zero limit table =
    take-eq 0 (0 * limit) (filter (λ s. s.is_confirmed) table) (omega arith)
read_subscribers-take (suc pages) limit table =
    let rows : Table = filter (λ s. s.is_confirmed) table in
    let skipped : (suc pages - 1) * limit ≡ pages * limit = ap (λ k. k * limit) (before pages) in
    ap (λ t. t ++ take limit (drop ((suc pages - 1) * limit) rows))
      (read_subscribers-take pages limit table)
    ∙ ap (λ k. take (pages * limit) rows ++ take limit (drop k rows)) skipped
    ∙ take-drop (pages * limit) limit rows
    ∙ take-eq (pages * limit + limit) (suc pages * limit) rows (omega arith)

-- Enough pages of any size, put together, are the confirmed rows, each once and in the table's order, and
-- the total that each page gives is how many they are.
read_subscribers-all :
    (pages limit : ℕ) (table : Table)
    → (list_subscribers pages limit table).1 ≤ pages * limit
    → (read_subscribers pages limit table ≡ filter (λ s. s.is_confirmed) table)
      × ((list_subscribers pages limit table).1 ≡ length (read_subscribers pages limit table))
unfolding list_subscribers
read_subscribers-all pages limit table h =
    let all =
      read_subscribers-take pages limit table
      ∙ take-all (pages * limit) (filter (λ s. s.is_confirmed) table) h in
    (all, ap length (sym all))
