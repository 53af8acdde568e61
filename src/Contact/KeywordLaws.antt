-- ===== src/Contact/KeywordLaws.antt =====
-- The table of keywords of backend/src/contact/spam-detection.service.ts over its admin calls.
use hub_assist.Common.{
  ℕ, ◌≡◌, ◌≢◌, refl, sym, Bool, true, false, not, Option, none, some, List, [], ◌∷◌, ◌==◌,
  if◌then◌else◌, filter, find?, update_where, All-filter, Text, text_eq, text_eq-false, All,
  Bool-cases, inl, inr, find?-none-All,
}
use hub_assist.Contact.Spam.{SpamKeyword, put_keyword, add_keyword, remove_keyword}

-- A row apart from another: of another id and another keyword.
abbrev pub Apart : SpamKeyword → SpamKeyword → Type 0
Apart k other = (k.id ≢ other.id) × (k.keyword ≢ other.keyword)

-- No two rows share an id or a keyword.
abbrev pub IsKeyed : List SpamKeyword → Type 0
IsKeyed [] = Unit
IsKeyed (k ∷ ks) = All (Apart k) ks × IsKeyed ks

module _ (to_lower : Text → Text) where
  -- The tables that the calls reach from the empty one; the database gives a new row a new id.
  pub data KeywordRun : List SpamKeyword → Type 0 where
    start : KeywordRun []
    add :
        (id : ℕ) (keyword : Text) (weight : ℕ) (table : List SpamKeyword)
        → All (λ k. id ≢ k.id) table
        → KeywordRun table
        → KeywordRun (add_keyword to_lower id keyword weight table)
    remove :
        (id : ℕ) (table : List SpamKeyword)
        → KeywordRun table
        → KeywordRun (remove_keyword id table)

  filter-IsKeyed :
      (p : SpamKeyword → Bool) (ks : List SpamKeyword) → IsKeyed ks → IsKeyed (filter p ks)
  filter-IsKeyed p [] h = tt
  filter-IsKeyed p (k ∷ ks) h = elim (Bool-cases (p k)) [
    | inl e ↦ rw e (All-filter (Apart k) p ks h.0, filter-IsKeyed p ks h.1)
    | inr e ↦ rw e (filter-IsKeyed p ks h.1)
  ]

  -- A row that is updated keeps its id and its keyword.
  abbrev renew : ℕ → ℕ → SpamKeyword → SpamKeyword
  renew id weight k = if k.id == id then record k { is_active = true; weight = weight } else k

  Apart-renew :
      (id weight : ℕ) (k other : SpamKeyword)
      → Apart k other
      → Apart (renew id weight k) (renew id weight other)
  Apart-renew id weight k other h = elim (Bool-cases (k.id == id)) [
    | inl e ↦ elim (Bool-cases (other.id == id)) [ inl f ↦ rw (e, f) h | inr f ↦ rw (e, f) h ]
    | inr e ↦ elim (Bool-cases (other.id == id)) [ inl f ↦ rw (e, f) h | inr f ↦ rw (e, f) h ]
  ]

  abbrev renewed : ℕ → ℕ → List SpamKeyword → List SpamKeyword
  renewed id weight table =
      update_where (λ k. k.id == id) (λ k. record k { is_active = true; weight = weight }) table

  renewed-Apart :
      (id weight : ℕ) (k : SpamKeyword) (ks : List SpamKeyword)
      → All (Apart k) ks
      → All (Apart (renew id weight k)) (renewed id weight ks)
  renewed-Apart id weight k [] h = tt
  renewed-Apart id weight k (other ∷ ks) h =
      (Apart-renew id weight k other h.0, renewed-Apart id weight k ks h.1)

  renewed-IsKeyed :
      (id weight : ℕ) (ks : List SpamKeyword) → IsKeyed ks → IsKeyed (renewed id weight ks)
  renewed-IsKeyed id weight [] h = tt
  renewed-IsKeyed id weight (k ∷ ks) h =
      (renewed-Apart id weight k ks h.0, renewed-IsKeyed id weight ks h.1)

  new-Apart :
      (id weight : ℕ) (keyword : Text) (ks : List SpamKeyword)
      → All (λ k. id ≢ k.id) ks
      → All (λ k. text_eq k.keyword keyword ≡ false) ks
      → All (Apart (record { id = id; keyword = keyword; weight = weight; is_active = true })) ks
  new-Apart id weight keyword [] h f = tt
  new-Apart id weight keyword (k ∷ ks) h f = (
    (h.0, λ e. text_eq-false k.keyword keyword f.0 (sym e)),
    new-Apart id weight keyword ks h.1 f.1,
  )

  put_keyword-IsKeyed :
      (found : Option SpamKeyword) (id : ℕ) (keyword : Text) (weight : ℕ) (table : List SpamKeyword)
      → find? (λ k. text_eq k.keyword (to_lower keyword)) table ≡ found
      → All (λ k. id ≢ k.id) table
      → IsKeyed table
      → IsKeyed (put_keyword to_lower found id keyword weight table)
  put_keyword-IsKeyed none id keyword weight table e fresh h = (
    new-Apart id weight (to_lower keyword) table fresh
        (find?-none-All (λ k. text_eq k.keyword (to_lower keyword)) table e),
    h,
  )
  put_keyword-IsKeyed (some existing) id keyword weight table e fresh h =
      renewed-IsKeyed existing.id weight table h

  -- However the admin adds and removes keywords, no two rows of the table share an id or a keyword.
  KeywordRun-IsKeyed : (table : List SpamKeyword) → KeywordRun table → IsKeyed table
  unfolding add_keyword remove_keyword
  KeywordRun-IsKeyed table start = tt
  KeywordRun-IsKeyed table (add id keyword weight before fresh r) =
      put_keyword-IsKeyed (find? (λ k. text_eq k.keyword (to_lower keyword)) before) id keyword
        weight before refl fresh (KeywordRun-IsKeyed before r)
  KeywordRun-IsKeyed table (remove id before r) =
      filter-IsKeyed (λ k. not (k.id == id)) before (KeywordRun-IsKeyed before r)
