-- ===== src/Frontend/FiltersLaws.antt =====
-- The filters that frontend/src/hooks/useFiltersWithUrl.ts writes into the address and reads back.
use hub_assist.Common.{
  ℕ, ◌≡◌, ◌≢◌, inl, inr, refl, sym, ap, ◌∙◌, Bool, true, false, Option, none, some, List, [], ◌∷◌,
  ==→eq, if◌then◌else◌, Text, text_eq, text_eq→eq, text_eq_refl, includes, All, All-Memᴰ,
  Bool-cases,
}
use mathlib.Core.List.{Memᴰ}
use mathlib.Core.Path.{subst}
use hub_assist.Frontend.Filters.{
  FilterValue, text, flag, number, FilterCodec, enum_codec, boolean_codec, number_codec, flag_eq,
  value_eq, Filters, Schema, Params, get, or_default, read_param, filters_of, changed, set_param,
  params_of, Query, set_filters, filters_at,
}

flag_eq→eq : (a b : Bool) → flag_eq a b ≡ true → a ≡ b
flag_eq→eq true b h = sym h
flag_eq→eq false true h = cc
flag_eq→eq false false h = refl

value_eq→eq : (a b : FilterValue) → value_eq a b ≡ true → a ≡ b
value_eq→eq (text a) (text b) h = ap text (text_eq→eq a b h)
value_eq→eq (flag a) (flag b) h = ap flag (flag_eq→eq a b h)
value_eq→eq (number a) (number b) h = ap number (==→eq a b h)
value_eq→eq a b h = cc

-- A value that its codec reads back.
pub record IsValue (codec : FilterCodec) (v : FilterValue) : Type 0 where
  pub first : ℕ
  pub rest : Text
  pub written : codec.serialize v ≡ first ∷ rest
  pub parsed : codec.parse (first ∷ rest) ≡ some v

-- No key of a schema stands twice.
abbrev pub HasOwnKeys : Schema → Type 0
HasOwnKeys [] = Unit
HasOwnKeys (entry ∷ schema) = All (λ e. entry.0 ≢ e.0) schema × HasOwnKeys schema

text_ne : (a b : Text) → a ≢ b → text_eq a b ≡ false
text_ne a b h = elim (Bool-cases (text_eq a b)) [
  | inl e ↦ absurd (h (text_eq→eq a b e))
  | inr e ↦ e
]

get-set_param :
    (key : Text) (o : Option Text) (params : Params)
    → get params key ≡ none
    → get (set_param key o params) key ≡ o
unfolding get
get-set_param key none params h = h
get-set_param key (some v) params h = rw (text_eq_refl key) refl

get-set_param_other :
    (k key : Text) (o : Option Text) (params : Params)
    → text_eq k key ≡ false
    → get (set_param k o params) key ≡ get params key
unfolding get
get-set_param_other k key none params h = refl
get-set_param_other k key (some v) params h = rw h refl

module _ (defaults next : Filters) where
  get-absent :
      (schema : Schema) (key : Text)
      → All (λ e. key ≢ e.0) schema
      → get (params_of defaults schema next) key ≡ none
  unfolding get params_of
  get-absent [] key h = refl
  get-absent ((k, codec) ∷ schema) key h =
      get-set_param_other k key (changed codec (next k) (defaults k))
        (params_of defaults schema next) (text_ne k key (λ e. h.0 (sym e)))
      ∙ get-absent schema key h.1

  get-params_of :
      (schema : Schema) (key : Text) (codec : FilterCodec)
      → HasOwnKeys schema
      → Memᴰ (key, codec) schema
      → get (params_of defaults schema next) key ≡ changed codec (next key) (defaults key)
  unfolding params_of
  get-params_of [] key codec h m = elim m [ ]
  get-params_of ((k, c) ∷ schema) key codec h (Memᴰ.head e) =
      subst
        (λ (p : Text × FilterCodec).
          get (params_of defaults ((k, c) ∷ schema) next) p.0
          ≡ changed p.1 (next p.0) (defaults p.0))
        (sym e)
        (get-set_param k (changed c (next k) (defaults k)) (params_of defaults schema next)
          (get-absent schema k h.0))
  get-params_of ((k, c) ∷ schema) key codec h (Memᴰ.tail m) =
      get-set_param_other k key (changed c (next k) (defaults k)) (params_of defaults schema next)
        (text_ne k key (All-Memᴰ (λ e. k ≢ e.0) (key, codec) schema h.0 m))
      ∙ get-params_of schema key codec h.1 m

  filters_of-read :
      (schema : Schema) (params : Params) (key : Text) (codec : FilterCodec)
      → HasOwnKeys schema
      → Memᴰ (key, codec) schema
      → filters_of defaults schema params key ≡ read_param codec (get params key) (defaults key)
  unfolding filters_of
  filters_of-read [] params key codec h m = elim m [ ]
  filters_of-read ((k, c) ∷ schema) params key codec h (Memᴰ.head e) =
      subst
        (λ (p : Text × FilterCodec).
          filters_of defaults ((k, c) ∷ schema) params p.0
          ≡ read_param p.1 (get params p.0) (defaults p.0))
        (sym e) (rw (text_eq_refl k) refl)
  filters_of-read ((k, c) ∷ schema) params key codec h (Memᴰ.tail m) =
      rw (text_ne k key (All-Memᴰ (λ e. k ≢ e.0) (key, codec) schema h.0 m))
        (filters_of-read schema params key codec h.1 m)

  read_param-changed :
      (codec : FilterCodec) (value d : Option FilterValue)
      → ((v : FilterValue) → value ≡ some v → IsValue codec v)
      → read_param codec (changed codec value d) d ≡ or_default value d
  read_param-changed codec none d h = refl
  read_param-changed codec (some v) none h = let is = h v refl in rw (is.written, is.parsed) refl
  read_param-changed codec (some v) (some d) h = of_eq (value_eq v d) refl
    where
      of_eq :
          (b : Bool)
          → value_eq v d ≡ b
          → read_param codec (if b then none else some (codec.serialize v)) (some d) ≡ some v
      of_eq true e = ap some (sym (value_eq→eq v d e))
      of_eq false e = let is = h v refl in rw (is.written, is.parsed) refl

  -- A filter that is set comes back from the address: for each key of the schema, whose keys differ, the
  -- value that was set, if its codec reads back what it writes of it, or the default where it was
  -- undefined. The platform reads from an address the parameters that were written into it.
  pub filters_at-set_filters :
      {Address : Type 0} (query : Query Address) (schema : Schema) (key : Text)
      (codec : FilterCodec)
      → ((params : Params) → query.of_query (query.to_query params) ≡ params)
      → HasOwnKeys schema
      → Memᴰ (key, codec) schema
      → ((v : FilterValue) → next key ≡ some v → IsValue codec v)
      → filters_at query defaults schema (set_filters query defaults schema next) key
        ≡ or_default (next key) (defaults key)
  unfolding filters_at set_filters
  filters_at-set_filters {Address} query schema key codec law h m is =
      filters_of-read schema (query.of_query (query.to_query (params_of defaults schema next))) key
        codec h m
      ∙ ap (λ params. read_param codec (get params key) (defaults key))
          (law (params_of defaults schema next))
      ∙ ap (λ o. read_param codec o (defaults key)) (get-params_of schema key codec h m)
      ∙ read_param-changed codec (next key) (defaults key) is

-- What the codecs read back: an allowed text that is not empty, both flags, each number whose text is not
-- empty and is read as it, and each text that is not empty.
module _ (show : ℕ → Text) (read : Text → Option ℕ) where
  pub enum_codec-IsValue :
      (allowed : List Text) (c : ℕ) (cs : Text)
      → includes allowed (c ∷ cs) ≡ true
      → IsValue (enum_codec show read allowed) (text (c ∷ cs))
  enum_codec-IsValue allowed c cs h = record {
    first = c;
    rest = cs;
    written = refl;
    parsed = rw h refl;
  }

  pub boolean_codec-IsValue : (b : Bool) → IsValue (boolean_codec show read) (flag b)
  boolean_codec-IsValue true = record {
    first = 116;
    rest = 114 ∷ 117 ∷ 101 ∷ [];
    written = refl;
    parsed = refl;
  }
  boolean_codec-IsValue false = record {
    first = 102;
    rest = 97 ∷ 108 ∷ 115 ∷ 101 ∷ [];
    written = refl;
    parsed = refl;
  }

  pub number_codec-IsValue :
      (n c : ℕ) (cs : Text)
      → show n ≡ c ∷ cs
      → read (c ∷ cs) ≡ some n
      → IsValue (number_codec show read) (number n)
  number_codec-IsValue n c cs w r = record { first = c; rest = cs; written = w; parsed = rw r refl }
