-- ===== src/Contact/Spam.antt =====
-- backend/src/contact/spam-detection.service.ts. Texts are lists of UTF-16 code units, moments are
-- milliseconds, and scores and weights are hundredths, added without the rounding of floating point. The
-- section's parameter is `toLowerCase` of a text.
use hub_assist.Common.{
  ℕ, ◌+◌, ◌*◌, min, Bool, true, false, not, ◌&&◌, ◌||◌, Option, none, some, List, [], ◌∷◌, ◌++◌,
  leb, ltb, ◌==◌, if◌then◌else◌, length, filter, find?, update_where, Text, text_eq, starts_with,
  is_space,
}

pub record SpamKeyword : Type 0 where
  pub id : ℕ
  pub keyword : Text
  pub weight : ℕ
  pub is_active : Bool

pub data Flag : Type 0 where
  high_url_density url_count repeated_chars high_velocity velocity : ℕ → Flag
  spam_keyword : Text → Flag
  message_too_short message_too_long : Flag

pub record SpamAnalysis : Type 0 where
  pub score : ℕ
  pub flags : List Flag

-- `SPAM_THRESHOLD`.
abbrev pub spam_threshold : ℕ
spam_threshold = 70

-- One unit as the flag `i` compares it.
abbrev pub lower_unit : ℕ → ℕ
lower_unit c = if leb 65 c && leb c 90 then c + 32 else c

-- A prefix at the start of the text, and then a unit that is no space.
abbrev pub prefix_then_word : Text → Text → Bool
prefix_then_word [] [] = false
prefix_then_word [] (c ∷ cs) = not (is_space c)
prefix_then_word (p ∷ ps) [] = false
prefix_then_word (p ∷ ps) (c ∷ cs) =
    let rest = prefix_then_word ps cs in if lower_unit c == p then rest else false

-- "http://", "https://", "ftp://" and "www."
abbrev pub link_prefixes : List Text
link_prefixes =
    (104 ∷ 116 ∷ 116 ∷ 112 ∷ 58 ∷ 47 ∷ 47 ∷ [])
    ∷ (104 ∷ 116 ∷ 116 ∷ 112 ∷ 115 ∷ 58 ∷ 47 ∷ 47 ∷ [])
    ∷ (102 ∷ 116 ∷ 112 ∷ 58 ∷ 47 ∷ 47 ∷ [])
    ∷ (119 ∷ 119 ∷ 119 ∷ 46 ∷ [])
    ∷ []

abbrev pub link_at : List Text → Text → Bool
link_at [] text = false
link_at (p ∷ ps) text = prefix_then_word p text || link_at ps text

-- The matches of `URL_REGEX`; `inside` one, which goes on to the next space.
unfoldable pub urls_from : Bool → Text → ℕ
urls_from inside [] = 0
urls_from true (c ∷ cs) = urls_from (not (is_space c)) cs
urls_from false (c ∷ cs) =
    let found = link_at link_prefixes (c ∷ cs) in (if found then 1 else 0) + urls_from found cs

-- What `.` does not match.
abbrev pub ends_line : ℕ → Bool
ends_line c = c == 10 || c == 13 || c == 8232 || c == 8233

-- The matches of `REPEATED_CHAR_REGEX`, after a run of one unit: a run counts where it reaches five.
unfoldable pub runs_from : ℕ → ℕ → Text → ℕ
runs_from last run [] = 0
runs_from last run (c ∷ cs) =
    let grown = if c == last then run + 1 else 1 in
    (if grown == 5 && not (ends_line c) then 1 else 0) + runs_from c grown cs

-- `text.includes(part)`.
unfoldable pub contains : Text → Text → Bool
contains part [] = starts_with [] part
contains part (c ∷ cs) = starts_with (c ∷ cs) part || contains part cs

-- What one of the five heuristics adds, and its flags.
abbrev pub Share : Type 0
Share = ℕ × List Flag

abbrev pub url_share : ℕ → Share
url_share n =
    if leb 5 n
    then (min 40 (n * 8), high_url_density n ∷ [])
    else if leb 2 n
    then (n * 5, url_count n ∷ [])
    else (0, [])

abbrev pub length_share : ℕ → Share
length_share n =
    if ltb n 15
    then (15, message_too_short ∷ [])
    else if ltb 4000 n
    then (10, message_too_long ∷ [])
    else (0, [])

abbrev pub repeated_share : ℕ → Share
repeated_share n = if ltb 0 n then (min 20 (n * 5), repeated_chars n ∷ []) else (0, [])

abbrev pub velocity_share : ℕ → Share
velocity_share n =
    if leb 3 n
    then (30, high_velocity n ∷ [])
    else if leb 1 n
    then (n * 5, velocity n ∷ [])
    else (0, [])

-- "unknown"
abbrev pub unknown_ip : Text
unknown_ip = 117 ∷ 110 ∷ 107 ∷ 110 ∷ 111 ∷ 119 ∷ 110 ∷ []

abbrev pub is_known : Text → Bool
is_known [] = false
is_known (c ∷ cs) = not (text_eq (c ∷ cs) unknown_ip)

abbrev pub both : Share → Share → Share
both (a, fs) (b, gs) = (a + b, fs ++ gs)

-- `getActiveKeywords`.
abbrev pub get_active_keywords : List SpamKeyword → List SpamKeyword
get_active_keywords keywords = filter (λ k. k.is_active) keywords

module _ (to_lower : Text → Text) where
  unfoldable pub keyword_share : List SpamKeyword → Text → Share
  keyword_share [] lower_text = (0, [])
  keyword_share (k ∷ ks) lower_text =
      if contains (to_lower k.keyword) lower_text
      then both (k.weight, spam_keyword k.keyword ∷ []) (keyword_share ks lower_text)
      else keyword_share ks lower_text

  -- The five shares of a text, of its message, and of the messages that the address sent before.
  unfoldable pub shares : List SpamKeyword → Text → Text → ℕ → Share
  unfolding keyword_share urls_from runs_from
  shares keywords full_text message recent = both (url_share (urls_from false full_text)) (
      both (keyword_share (get_active_keywords keywords) (to_lower full_text)) (
        both (length_share (length message))
          (both (repeated_share (runs_from 0 0 full_text)) (velocity_share recent))))

  -- `recent` is the count of the messages of the address, which is asked for a known one.
  unfoldable pub analyse : List SpamKeyword → Text → Text → Text → Text → ℕ → SpamAnalysis
  unfolding shares
  analyse keywords full_name subject message ip_address recent =
      let added =
        shares keywords (full_name ++ 32 ∷ subject ++ 32 ∷ message) message
          (if is_known ip_address then recent else 0) in
      record { score = min 100 added.0; flags = added.1 }

  -- The row that is found is given the weight; `id` is the one that the database gives a new row.
  abbrev pub put_keyword : Option SpamKeyword → ℕ → Text → ℕ → List SpamKeyword → List SpamKeyword
  put_keyword (some existing) id keyword weight table =
      update_where (λ k. k.id == existing.id) (λ k. record k { is_active = true; weight = weight })
        table
  put_keyword none id keyword weight table =
      record { id = id; keyword = to_lower keyword; weight = weight; is_active = true } ∷ table

  unfoldable pub add_keyword : ℕ → Text → ℕ → List SpamKeyword → List SpamKeyword
  add_keyword id keyword weight table =
      put_keyword (find? (λ k. text_eq k.keyword (to_lower keyword)) table) id keyword weight table

unfoldable pub remove_keyword : ℕ → List SpamKeyword → List SpamKeyword
remove_keyword id table = filter (λ k. not (k.id == id)) table

unfoldable pub is_spam : ℕ → Bool
is_spam score = ltb spam_threshold score
