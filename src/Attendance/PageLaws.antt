-- ===== src/Attendance/PageLaws.antt =====
-- The pages of backend/src/attendance/attendance.service.ts together are the user's whole list.
use mathlib.Core.List.{append_assoc}
use hub_assist.Common.{
  take, take-all, ℕ, zero, suc, ◌+◌, ◌/◌, ◌≤◌, ◌<◌, ◌≡◌, refl, sym, ap, ◌∙◌, true, false, Option,
  none, some, List, [], ◌∷◌, ◌++◌, ltb, length, filter, ok, All, Bool-cases, inl, inr, arith,
  ltb→lt,
}
use hub_assist.Pagination.Cursor.{Codec, CodecLaws, encode_cursor}
use hub_assist.Pagination.CursorLaws.{decode_cursor-encode_cursor}
use hub_assist.Attendance.Pages.{
  Entry, Page, is_after, last, cursor_at, own, next_cursor_of, page_of, records_after,
  get_my_attendance, read_pages,
}

-- Newest first, and no two in one millisecond.
abbrev pub IsSpread : List Entry → Type 0
IsSpread [] = Unit
IsSpread (e ∷ es) = All (λ f. f.at / 1000 < e.at / 1000) es × IsSpread es

-- Behind a row come those after its cursor, and it and what stands before it are not after it.
filter-all :
    (d : Entry) (es : List Entry)
    → All (λ f. f.at / 1000 < d.at / 1000) es
    → filter (is_after (cursor_at d)) es ≡ es
filter-all d [] h = refl
filter-all d (e ∷ es) h =
    let here = h.0 in
    let ih = filter-all d es h.1 in
    let after : is_after (cursor_at d) e ≡ true = ground arith in rw (after, ih) refl

filter-after :
    (pre : List Entry) (d : Entry) (post : List Entry)
    → IsSpread (pre ++ d ∷ post)
    → filter (is_after (cursor_at d)) (pre ++ d ∷ post) ≡ post
filter-after [] d post h =
    let itself : is_after (cursor_at d) d ≡ false = ground arith in
    rw itself (filter-all d post h.0)
filter-after (e ∷ es) d post h =
    let ih = filter-after es d post h.1 in
    let newer = before-all es d post (e.at / 1000) h.0 in
    let not_after : is_after (cursor_at d) e ≡ false = ground arith in rw not_after ih
  where
    before-all :
        (es : List Entry) (d : Entry) (post : List Entry) (t : ℕ)
        → All (λ f. f.at / 1000 < t) (es ++ d ∷ post)
        → d.at / 1000 < t
    before-all [] d post t h = h.0
    before-all (e ∷ es) d post t h = before-all es d post t h.1

take-take : (n : ℕ) (es : List Entry) → take n (take (suc n) es) ≡ take n es
take-take zero es = refl
take-take (suc n) [] = refl
take-take (suc n) (e ∷ es) = ap (λ t. e ∷ t) (take-take n es)

length-take : (n : ℕ) (es : List Entry) → n < length es → length (take (suc n) es) ≡ suc n
length-take n [] h = absurd (omega arith)
length-take zero (e ∷ es) h = refl
length-take (suc n) (e ∷ es) h = ap suc (length-take n es (omega arith))

-- A full page, which ends with a row, and the rest.
record Cut (n : ℕ) (es : List Entry) : Type 0 where
  init : List Entry
  final : Entry
  rest : List Entry
  page : take (suc n) es ≡ init ++ final ∷ []
  whole : es ≡ (init ++ final ∷ []) ++ rest

cut : (n : ℕ) (es : List Entry) → suc n < length es → Cut n es
cut n [] h = absurd (omega arith)
cut zero (e ∷ es) h = record { init = []; final = e; rest = es; page = refl; whole = refl }
cut (suc n) (e ∷ es) h =
    let c = cut n es (omega arith) in
    record {
      init = e ∷ c.init;
      final = c.final;
      rest = c.rest;
      page = ap (λ t. e ∷ t) c.page;
      whole = ap (λ t. e ∷ t) c.whole;
    }

last-snoc : (init : List Entry) (final : Entry) → last (init ++ final ∷ []) ≡ some final
last-snoc [] final = refl
last-snoc (e ∷ []) final = refl
last-snoc (e ∷ f ∷ es) final = last-snoc (f ∷ es) final

length-snoc :
    (init rest : List Entry) (final : Entry) → length rest < length ((init ++ final ∷ []) ++ rest)
length-snoc [] rest final = omega arith
length-snoc (e ∷ es) rest final = let ih = length-snoc es rest final in omega (arith, ih)

module _ (codec : Codec) (laws : CodecLaws codec) (user_id : ℕ) (n : ℕ) (rows : List Entry) where
  page_of-full :
      (es : List Entry)
      → suc n < length es
      → page_of codec (suc n) (take (suc n + 1) es) ≡ record {
        entries = take (suc n) es;
        next_cursor = next_cursor_of codec (take (suc n) es);
        has_more = true;
      }
  unfolding page_of
  page_of-full es h =
      let step : suc n + 1 ≡ suc (suc n) = omega arith in
      let more : ltb (suc n) (length (take (suc (suc n)) es)) ≡ true =
        let l = length-take (suc n) es h in ground (arith, l) in
      rw (step, more, take-take (suc n) es) refl

  page_of-last :
      (es : List Entry)
      → length es ≤ suc n
      → page_of codec (suc n) (take (suc n + 1) es)
        ≡ record { entries = es; next_cursor = none; has_more = false }
  unfolding page_of
  page_of-last es h =
      let whole = take-all (suc n + 1) es (omega arith) in
      let few : ltb (suc n) (length es) ≡ false = ground arith in rw (whole, few) refl

  get_my_attendance-page :
      (cursor : Option (List ℕ)) (post : List Entry) (page : Page)
      → records_after codec user_id cursor rows ≡ ok post
      → page_of codec (suc n) (take (suc n + 1) post) ≡ page
      → get_my_attendance codec user_id (suc n) cursor rows ≡ ok page
  unfolding get_my_attendance
  get_my_attendance-page cursor post page here made = rw here (ap ok made)

  next_cursor_of-Cut :
      (post : List Entry) (c : Cut n post)
      → next_cursor_of codec (take (suc n) post) ≡ some (encode_cursor codec (cursor_at c.final))
  unfolding next_cursor_of
  next_cursor_of-Cut post c =
      let ends = last-snoc c.init c.final in rw c.page (rw (ends, next_cursor_of) refl)

  records_after-Cut :
      (pre post : List Entry) (c : Cut n post)
      → IsSpread (own user_id rows)
      → own user_id rows ≡ pre ++ post
      → records_after codec user_id (some (encode_cursor codec (cursor_at c.final))) rows
        ≡ ok c.rest
  unfolding records_after
  records_after-Cut pre post c s split =
      let all : own user_id rows ≡ (pre ++ c.init) ++ c.final ∷ c.rest =
        split
        ∙ (ap (λ t. pre ++ t) (c.whole ∙ append_assoc c.init (c.final ∷ []) c.rest)
            ∙ sym (append_assoc pre c.init (c.final ∷ c.rest))) in
      rw (decode_cursor-encode_cursor codec laws (cursor_at c.final), all)
        (ap ok (filter-after (pre ++ c.init) c.final c.rest (rw all at s)))

  -- Reading on from a cursor behind which `post` is left.
  read-post :
      (fuel : ℕ) (cursor : Option (List ℕ)) (pre post : List Entry)
      → IsSpread (own user_id rows)
      → own user_id rows ≡ pre ++ post
      → records_after codec user_id cursor rows ≡ ok post
      → length post < fuel
      → read_pages codec fuel user_id (suc n) cursor rows ≡ some post
  unfolding read_pages
  read-post zero cursor pre post s split here enough = absurd (omega arith)
  read-post (suc fuel) cursor pre post s split here enough =
      elim (Bool-cases (ltb (suc n) (length post))) [
        | inr few ↦
            rw (get_my_attendance-page cursor post _ here (page_of-last post (ground arith))) refl
        | inl more ↦
            let c = cut n post (ltb→lt (suc n) (length post) more) in
            let shorter = length-snoc c.init c.rest c.final in
            let size = ap length c.whole in
            let ih =
              read-post fuel (some (encode_cursor codec (cursor_at c.final)))
                (pre ++ (c.init ++ c.final ∷ [])) c.rest s
                (split
                  ∙ (ap (λ t. pre ++ t) c.whole
                      ∙ sym (append_assoc pre (c.init ++ c.final ∷ []) c.rest)))
                (records_after-Cut pre post c s split) (omega (arith, shorter, size)) in
            rw
              (
                get_my_attendance-page cursor post _ here
                    (page_of-full post (ltb→lt (suc n) (length post) more)),
                next_cursor_of-Cut post c,
                ih,
                c.page,
              )
              (ap some (sym c.whole))
      ]

-- A client that follows the cursors from the first page on reads all rows of the user, each once, newest
-- first, and then is told that there are no more: if no two of these rows were written in one
-- millisecond, where base64 and JSON do what they are documented to do, and whatever the size of a page,
-- one row or more.
pub read_pages-own :
    (codec : Codec) (user_id limit : ℕ) (rows : List Entry)
    → CodecLaws codec
    → 0 < limit
    → IsSpread (own user_id rows)
    → read_pages codec (suc (length (own user_id rows))) user_id limit none rows
      ≡ some (own user_id rows)
read_pages-own codec user_id zero rows laws h s = absurd (omega arith)
read_pages-own codec user_id (suc n) rows laws h s =
    read-post codec laws user_id n rows (suc (length (own user_id rows))) none [] (own user_id rows)
      s refl (unfold records_after in refl) (omega arith)
