-- ===== src/Contact/SpamLaws.antt =====
-- The score of backend/src/contact/spam-detection.service.ts and its flags, and its table of keywords.
use hub_assist.Common.{
  ℕ, ◌<◌, ◌≡◌, ◌↔◌, refl, min, false, List, [], ◌∷◌, ◌++◌, if◌then◌else◌, length, Text, All, arith,
  Bool-cases, inl, inr,
}
use hub_assist.Contact.Spam.{
  SpamKeyword, spam_keyword, Share, url_share, length_share, repeated_share, velocity_share,
  is_known, both, get_active_keywords, contains, keyword_share, shares, analyse, urls_from,
  runs_from,
}

-- Points and flags come together.
abbrev IsFair : Share → Type 0
IsFair (n, []) = n ≡ 0
IsFair (n, f ∷ fs) = 0 < n

both-IsFair : (a b : Share) → IsFair a → IsFair b → IsFair (both a b)
both-IsFair (n, []) (m, []) h k = omega arith
both-IsFair (n, []) (m, g ∷ gs) h k = omega arith
both-IsFair (n, f ∷ fs) (m, []) h k = omega arith
both-IsFair (n, f ∷ fs) (m, g ∷ gs) h k = omega arith

url_share-IsFair : (n : ℕ) → IsFair (url_share n)
url_share-IsFair n = ground arith

length_share-IsFair : (n : ℕ) → IsFair (length_share n)
length_share-IsFair n = ground arith

repeated_share-IsFair : (n : ℕ) → IsFair (repeated_share n)
repeated_share-IsFair n = ground arith

velocity_share-IsFair : (n : ℕ) → IsFair (velocity_share n)
velocity_share-IsFair n = ground arith

abbrev IsWeighty : SpamKeyword → Type 0
IsWeighty k = 0 < k.weight

IsFair-iff : (s : Share) → IsFair s → (min 100 s.0 ≡ 0) ↔ (s.1 ≡ [])
IsFair-iff (n, []) h = (λ e. refl, λ e. omega arith)
IsFair-iff (n, f ∷ fs) h = (λ e. absurd (omega arith), λ e. cc)

module _ (to_lower : Text → Text) where
  keyword_share-IsFair :
      (keywords : List SpamKeyword) (text : Text)
      → All IsWeighty keywords
      → IsFair (keyword_share to_lower keywords text)
  unfolding keyword_share
  keyword_share-IsFair [] text h = refl
  keyword_share-IsFair (k ∷ ks) text h = elim (Bool-cases (contains (to_lower k.keyword) text)) [
    | inl e ↦ rw e (
        both-IsFair (k.weight, spam_keyword k.keyword ∷ []) (keyword_share to_lower ks text) h.0
          (keyword_share-IsFair ks text h.1))
    | inr e ↦ rw e (keyword_share-IsFair ks text h.1)
  ]

  shares-IsFair :
      (keywords : List SpamKeyword) (full_text message : Text) (recent : ℕ)
      → All IsWeighty (get_active_keywords keywords)
      → IsFair (shares to_lower keywords full_text message recent)
  unfolding shares
  shares-IsFair keywords full_text message recent h =
      both-IsFair (url_share (urls_from false full_text)) _
        (url_share-IsFair (urls_from false full_text))
        (both-IsFair (keyword_share to_lower (get_active_keywords keywords) (to_lower full_text)) _
          (keyword_share-IsFair (get_active_keywords keywords) (to_lower full_text) h)
          (both-IsFair (length_share (length message)) _ (length_share-IsFair (length message)) (
            both-IsFair (repeated_share (runs_from 0 0 full_text)) (velocity_share recent)
              (repeated_share-IsFair (runs_from 0 0 full_text)) (velocity_share-IsFair recent))))

  -- A submission scores nothing exactly when it has no flag, where each active keyword has a weight.
  analyse-flags_iff :
      (keywords : List SpamKeyword) (full_name subject message ip_address : Text) (recent : ℕ)
      → All (λ k. 0 < k.weight) (get_active_keywords keywords)
      → ((analyse to_lower keywords full_name subject message ip_address recent).score ≡ 0)
        ↔ ((analyse to_lower keywords full_name subject message ip_address recent).flags ≡ [])
  unfolding analyse
  analyse-flags_iff keywords full_name subject message ip_address recent h = IsFair-iff _ (
      shares-IsFair keywords (full_name ++ 32 ∷ subject ++ 32 ∷ message) message
        (if is_known ip_address then recent else 0) h)
