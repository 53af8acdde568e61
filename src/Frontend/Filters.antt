-- ===== src/Frontend/Filters.antt =====
-- frontend/src/lib/filters/codecs.ts and `useFiltersWithUrl` of frontend/src/hooks/useFiltersWithUrl.ts.
-- Texts are lists of UTF-16 code units, and the values of filters are numbers, texts and Booleans, where a
-- number is one that `Number.isFinite` accepts, known by an index. A filter that is undefined is none.
use hub_assist.Common.{
  ℕ, Bool, true, false, Option, none, some, List, [], ◌∷◌, ◌==◌, if◌then◌else◌, Text, text_eq,
  includes,
}

pub data FilterValue : Type 0 where
  text : Text → FilterValue
  flag : Bool → FilterValue
  number : ℕ → FilterValue

pub record FilterCodec : Type 0 where
  pub parse : Text → Option FilterValue
  pub serialize : FilterValue → Text

-- "true" and "false"
abbrev pub true_text : Text
true_text = 116 ∷ 114 ∷ 117 ∷ 101 ∷ []

abbrev pub false_text : Text
false_text = 102 ∷ 97 ∷ 108 ∷ 115 ∷ 101 ∷ []

-- `String(value)`, for the text of a number.
abbrev pub to_text : (ℕ → Text) → FilterValue → Text
to_text show (text t) = t
to_text show (flag true) = true_text
to_text show (flag false) = false_text
to_text show (number n) = show n

abbrev pub as_number : Option ℕ → Option FilterValue
as_number none = none
as_number (some n) = some (number n)

-- `show` is `String` of a number, and `read` is `Number` of a text, none where that is not finite.
module _ (show : ℕ → Text) (read : Text → Option ℕ) where
  abbrev pub enum_codec : List Text → FilterCodec
  enum_codec allowed = record {
    parse = λ raw. if includes allowed raw then some (text raw) else none;
    serialize = to_text show;
  }

  abbrev pub boolean_codec : FilterCodec
  boolean_codec = record {
    parse = λ raw.
        if text_eq raw true_text
        then some (flag true)
        else if text_eq raw false_text
        then some (flag false)
        else none;
    serialize = to_text show;
  }

  abbrev pub number_codec : FilterCodec
  number_codec = record { parse = λ raw. as_number (read raw); serialize = to_text show }

  abbrev pub non_empty_text : Text → Option FilterValue
  non_empty_text [] = none
  non_empty_text (c ∷ cs) = some (text (c ∷ cs))

  abbrev pub string_codec : FilterCodec
  string_codec = record { parse = non_empty_text; serialize = to_text show }

-- `value === other`.
abbrev pub flag_eq : Bool → Bool → Bool
flag_eq true b = b
flag_eq false true = false
flag_eq false false = true

abbrev pub value_eq : FilterValue → FilterValue → Bool
value_eq (text a) (text b) = text_eq a b
value_eq (flag a) (flag b) = flag_eq a b
value_eq (number a) (number b) = a == b
value_eq a b = false

abbrev pub Filters : Type 0
Filters = Text → Option FilterValue

abbrev pub Schema : Type 0
Schema = List (Text × FilterCodec)

abbrev pub Params : Type 0
Params = List (Text × Text)

-- `searchParams.get(key)`.
unfoldable pub get : Params → Text → Option Text
get [] key = none
get ((k, v) ∷ params) key = let rest = get params key in if text_eq k key then some v else rest

abbrev pub or_default : Option FilterValue → Option FilterValue → Option FilterValue
or_default none d = d
or_default (some v) d = some v

abbrev pub read_param : FilterCodec → Option Text → Option FilterValue → Option FilterValue
read_param codec none d = d
read_param codec (some []) d = d
read_param codec (some (c ∷ cs)) d = or_default (codec.parse (c ∷ cs)) d

-- The filters that the parameters give.
unfoldable pub filters_of : Filters → Schema → Params → Filters
filters_of defaults [] params key = defaults key
filters_of defaults ((k, codec) ∷ schema) params key =
    let rest = filters_of defaults schema params key in
    if text_eq k key then read_param codec (get params k) (defaults k) else rest

-- The text that is set for a key: none for a value that is undefined or the default.
abbrev pub changed : FilterCodec → Option FilterValue → Option FilterValue → Option Text
changed codec none d = none
changed codec (some v) none = some (codec.serialize v)
changed codec (some v) (some d) = if value_eq v d then none else some (codec.serialize v)

abbrev pub set_param : Text → Option Text → Params → Params
set_param key none params = params
set_param key (some v) params = (key, v) ∷ params

-- The parameters that `setFilters` writes.
unfoldable pub params_of : Filters → Schema → Filters → Params
params_of defaults [] next = []
params_of defaults ((k, codec) ∷ schema) next =
    set_param k (changed codec (next k) (defaults k)) (params_of defaults schema next)

-- The platform's addresses: `params.toString()` with the router that goes there, and the parameters that
-- it gives of the address it is at.
pub record Query (Address : Type 0) : Type 0 where
  pub to_query : Params → Address
  pub of_query : Address → Params

module _ {Address : Type 0} (query : Query Address) where
  unfoldable pub set_filters : Filters → Schema → Filters → Address
  unfolding params_of
  set_filters defaults schema next = query.to_query (params_of defaults schema next)

  unfoldable pub filters_at : Filters → Schema → Address → Filters
  unfolding filters_of get
  filters_at defaults schema address = filters_of defaults schema (query.of_query address)
