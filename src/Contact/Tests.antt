-- ===== src/Contact/Tests.antt =====
-- backend/src/contact on a message that offers a casino twice over.
use hub_assist.Common.{◌≡◌, refl, true, List, [], ◌∷◌, map, Text}
use hub_assist.Contact.Spam.{
  SpamKeyword, velocity, url_count, spam_keyword, repeated_chars, lower_unit, analyse, add_keyword,
  urls_from, runs_from, contains, keyword_share, shares,
}
use hub_assist.Contact.Service.{SubmitContactDto, Inbox, submit_contact}
use hub_assist.Contact.ServiceLaws.{IsKept, submit, InboxRun-IsKept, InboxRun}

abbrev to_lower : Text → Text
to_lower text = map lower_unit text

-- "Bet"
abbrev bet : Text
bet = 66 ∷ 101 ∷ 116 ∷ []

-- "www.a www.b !!!!!! BET"
abbrev offer : Text
offer =
    119 ∷ 119 ∷ 119 ∷ 46 ∷ 97 ∷ 32 ∷ 87 ∷ 119 ∷ 119 ∷ 46 ∷ 98 ∷ 32 ∷ 33 ∷ 33 ∷ 33 ∷ 33 ∷ 33 ∷ 33
    ∷ 32 ∷ 66 ∷ 69 ∷ 84 ∷ []

abbrev bets : List SpamKeyword
bets = record { id = 1; keyword = map lower_unit bet; weight = 30; is_active = true } ∷ []

offer_score : (analyse to_lower bets bet bet offer (49 ∷ []) 1).score ≡ 50
unfolding analyse shares keyword_share urls_from runs_from contains
offer_score = refl

offer_flags :
    (analyse to_lower bets bet bet offer (49 ∷ []) 1).flags
    ≡ url_count 2 ∷ spam_keyword (map lower_unit bet) ∷ repeated_chars 1 ∷ velocity 1 ∷ []
unfolding analyse shares keyword_share urls_from runs_from contains
offer_flags = refl

abbrev dto : SubmitContactDto
dto = record { full_name = bet; email = 97 ∷ []; subject = bet; message = offer }

abbrev empty : Inbox
empty = record { messages = []; emails = 0 }

InboxRun-IsKept_example : IsKept 2 (
    submit_contact to_lower bets 2 dto
      (49 ∷ [])
      9
      (submit_contact to_lower [] 1 dto (49 ∷ []) 8 empty))
InboxRun-IsKept_example =
    InboxRun-IsKept to_lower 2
      (submit_contact to_lower bets 2 dto (49 ∷ []) 9
        (submit_contact to_lower [] 1 dto (49 ∷ []) 8 empty))
      (submit 1 _ bets 2 dto (49 ∷ []) 9 (submit 0 empty [] 1 dto (49 ∷ []) 8 InboxRun.start))

-- The second keyword replaces the weight of the first, which differs in the case of its letters.
keyword_again :
    add_keyword to_lower 2 (map lower_unit bet) 20 (add_keyword to_lower 1 bet 30 [])
    ≡ record { id = 1; keyword = map lower_unit bet; weight = 20; is_active = true } ∷ []
unfolding add_keyword
keyword_again = refl
