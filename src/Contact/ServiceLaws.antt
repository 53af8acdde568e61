-- ===== src/Contact/ServiceLaws.antt =====
-- What becomes of the submissions to backend/src/contact/contact.service.ts.
use hub_assist.Common.{
  ℕ, suc, ◌+◌, ◌<◌, ◌≤◌, ◌≡◌, ◌↔◌, refl, ap, sym, ◌∙◌, none, some, List, [], if◌then◌else◌, length,
  Text, All, arith, Bool-cases, inl, inr,
}
use hub_assist.Contact.Spam.{SpamKeyword, SpamAnalysis, analyse, is_spam}
use hub_assist.Contact.Service.{
  ContactMessage, SubmitContactDto, Inbox, pending, flagged, analysed, status_of, saved,
  submit_contact, get_messages, recent_count,
}

-- A score of at most 100 hundredths, flagged above 70.
abbrev pub IsScored : ContactMessage → Type 0
IsScored m = (m.spam_score ≤ 100) × ((m.status ≡ flagged) ↔ (70 < m.spam_score))

-- Each of so many submissions is there, and had its e-mail or is flagged.
pub record IsKept (n : ℕ) (inbox : Inbox) : Type 0 where
  pub all_kept : length inbox.messages ≡ n
  pub told : inbox.emails ≡ length (get_messages none inbox.messages)
  pub shown :
      length (get_messages none inbox.messages)
        + length (get_messages (some flagged) inbox.messages)
      ≡ n
  pub scored : All IsScored inbox.messages

module _ (to_lower : Text → Text) where
  -- The inboxes after so many submissions, each under the keywords of its moment.
  pub data InboxRun : ℕ → Inbox → Type 0 where
    start : InboxRun 0 (record { messages = []; emails = 0 })
    submit :
        (n : ℕ) (inbox : Inbox) (keywords : List SpamKeyword) (id : ℕ) (dto : SubmitContactDto)
        (ip_address : Text) (now : ℕ)
        → InboxRun n inbox
        → InboxRun (suc n) (submit_contact to_lower keywords id dto ip_address now inbox)

  status_of_iff :
      (analysis : SpamAnalysis) → (status_of to_lower analysis ≡ flagged) ↔ (70 < analysis.score)
  unfolding is_spam
  status_of_iff analysis = elim (Bool-cases (is_spam analysis.score)) [
    | inl e ↦ (λ s. ground (arith, e), λ l. rw e refl)
    | inr e ↦ (
      λ s. absurd (no_flag (sym (ap (λ b. if b then flagged else pending) e) ∙ s)),
      λ l. absurd (ground (arith, e, l)),
    )
  ]
    where
      no_flag : pending ≡ flagged → ⊥
      no_flag e = cc

  score_le :
      (keywords : List SpamKeyword) (a b c d : Text) (recent : ℕ)
      → (analyse to_lower keywords a b c d recent).score ≤ 100
  unfolding analyse
  score_le keywords a b c d recent = omega arith

  submit_contact-IsKept :
      (n : ℕ) (inbox : Inbox) (keywords : List SpamKeyword) (id : ℕ) (dto : SubmitContactDto)
      (ip_address : Text) (now : ℕ)
      → IsKept n inbox
      → IsKept (suc n) (submit_contact to_lower keywords id dto ip_address now inbox)
  unfolding submit_contact get_messages
  submit_contact-IsKept n inbox keywords id dto ip_address now h =
      let analysis : SpamAnalysis = analysed to_lower keywords dto ip_address now inbox.messages in
      let mark : IsScored (saved to_lower id dto ip_address now analysis) = (
        score_le keywords dto.full_name dto.subject dto.message ip_address
            (recent_count ip_address now inbox.messages),
        status_of_iff analysis,
      ) in
      let kept = h.all_kept in
      let told = h.told in
      let shown = h.shown in
      elim (Bool-cases (is_spam analysis.score)) [
        | inl e ↦ record {
          all_kept = omega (arith, kept);
          told = rw e (omega (arith, told));
          shown = rw e (omega (arith, shown));
          scored = (mark, h.scored);
        }
        | inr e ↦ record {
          all_kept = omega (arith, kept);
          told = rw e (omega (arith, told));
          shown = rw e (omega (arith, shown));
          scored = (mark, h.scored);
        }
      ]

  -- Whatever the scores, none of n submissions is lost: n messages are stored, each has a score of at most
  -- 100 and is flagged exactly above 70; the default list and the flagged one share them out, as long as
  -- no admin reviews one, and the e-mails are as many as the default list.
  pub InboxRun-IsKept : (n : ℕ) (inbox : Inbox) → InboxRun n inbox → IsKept n inbox
  unfolding get_messages
  InboxRun-IsKept n inbox start = record { all_kept = refl; told = refl; shown = refl; scored = tt }
  InboxRun-IsKept n inbox (submit m before keywords id dto ip_address now r) =
      submit_contact-IsKept m before keywords id dto ip_address now (InboxRun-IsKept m before r)
