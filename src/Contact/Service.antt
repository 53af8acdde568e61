-- ===== src/Contact/Service.antt =====
-- backend/src/contact/contact.service.ts: what is stored of a submission, and what the admin is shown. The
-- e-mails, of which the source has only a place, are counted; a page of the messages is not modelled, but
-- what its query selects is.
use hub_assist.Common.{
  ℕ, ◌+◌, Bool, true, false, ◌&&◌, Option, none, some, List, ◌∷◌, ltb, if◌then◌else◌, filter, count,
  Text, text_eq,
}
use hub_assist.Contact.Spam.{SpamKeyword, SpamAnalysis, Flag, analyse, is_spam}

pub data ContactMessageStatus : Type 0 where
  pending reviewed flagged resolved : ContactMessageStatus

pub record SubmitContactDto : Type 0 where
  pub full_name : Text
  pub email : Text
  pub subject : Text
  pub message : Text

pub record ContactMessage : Type 0 where
  pub id : ℕ
  pub dto : SubmitContactDto
  pub ip_address : Text
  pub spam_score : ℕ
  pub spam_flags : List Flag
  pub status : ContactMessageStatus
  pub created_at : ℕ

-- The messages, newest first, and the number of e-mails that were asked for.
pub record Inbox : Type 0 where
  pub messages : List ContactMessage
  pub emails : ℕ

abbrev pub status_eq : ContactMessageStatus → ContactMessageStatus → Bool
status_eq pending pending = true
status_eq reviewed reviewed = true
status_eq flagged flagged = true
status_eq resolved resolved = true
status_eq a b = false

abbrev pub ten_minutes : ℕ
ten_minutes = 600000

-- The count of the velocity check.
abbrev pub recent_count : Text → ℕ → List ContactMessage → ℕ
recent_count ip_address now messages =
    count (λ m. text_eq m.ip_address ip_address && ltb now (m.created_at + ten_minutes)) messages

module _ (to_lower : Text → Text) where
  abbrev pub analysed :
      List SpamKeyword → SubmitContactDto → Text → ℕ → List ContactMessage → SpamAnalysis
  analysed keywords dto ip_address now messages =
      analyse to_lower keywords dto.full_name dto.subject dto.message ip_address
        (recent_count ip_address now messages)

  abbrev pub status_of : SpamAnalysis → ContactMessageStatus
  status_of analysis = if is_spam analysis.score then flagged else pending

  -- The row that is saved; `id` is the database's.
  abbrev pub saved : ℕ → SubmitContactDto → Text → ℕ → SpamAnalysis → ContactMessage
  saved id dto ip_address now analysis = record {
    id = id;
    dto = dto;
    ip_address = ip_address;
    spam_score = analysis.score;
    spam_flags = analysis.flags;
    status = status_of analysis;
    created_at = now;
  }

  unfoldable pub submit_contact : List SpamKeyword → ℕ → SubmitContactDto → Text → ℕ → Inbox → Inbox
  submit_contact keywords id dto ip_address now inbox =
      let analysis = analysed keywords dto ip_address now inbox.messages in
      record {
        messages = saved id dto ip_address now analysis ∷ inbox.messages;
        emails = inbox.emails + (if status_eq (status_of analysis) flagged then 0 else 1);
      }

abbrev pub or_pending : Option ContactMessageStatus → ContactMessageStatus
or_pending none = pending
or_pending (some status) = status

-- What the query of `getMessages` selects.
unfoldable pub get_messages :
    Option ContactMessageStatus → List ContactMessage → List ContactMessage
get_messages status messages = filter (λ m. status_eq m.status (or_pending status)) messages
