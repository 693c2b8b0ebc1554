-- ===== src/Palconfig/RoundTrip.antt =====
-- Parsing what was serialised.
use pal_panel_host_wine.Prelude.{
  ℕ, ◌+◌, ◌-◌, ◌≡◌, refl, ap, ◌∙◌, true, false, some, List, [], ◌∷◌, ◌++◌, map, Bytes, has_prefix,
  length, take, take-append, ◌==◌, for_each, All, arith,
}
use pal_panel_host_wine.Palconfig.{
  Text, Settings, outside, lookup, store, sort, cut, with_first, join, marker, section_header,
  index_of, next_index, find_from, find_closing_paren, paren_step, split_from, split_top_level,
  format_value, format_entry, serialize, add_cut, add_item, parse_items, parse_between, parse_at,
  parse,
}
use pal_panel_host_wine.Palconfig.Runes.{IsText, IsText-ascii, rune_text}
use pal_panel_host_wine.Palconfig.Items.{
  IsClosed, AllClosed, item_step, item_from, item_from-append, split_top_level-join, find_from-join,
}
use pal_panel_host_wine.Palconfig.Lookup.{
  DistinctKeys, lookup-sort, sort-DistinctKeys, All-sort, store_all, lookup-store_all,
}
use pal_panel_host_wine.Palconfig.Written.{
  is_graphic, is_plain, first_is, last_is, IsPlain, IsFaithful, plain-IsClosed, plain-IsText,
  plain-first, plain-last, last_is-append, IsValue, format_value-IsWritten,
}

-- A key of plain signs, and a value that, if it stands in parentheses, closes what it opens and is
-- valid UTF-8.
pub record IsEntry (e : Bytes × Bytes) : Type 0 where
  pub named : (length e.0 == 0) ≡ false
  pub plain : IsPlain e.0
  pub value : IsValue e.1

cut_key : (k v : Bytes) → IsPlain k → cut 61 (k ++ 61 ∷ v) ≡ some (k, v)
unfolding cut with_first
cut_key [] v h = refl
cut_key (x ∷ k) v (p, h) =
    let n : (x == 61) ≡ false = not_equals x p in rw n (rw (cut_key k v h) refl)
  where
    not_equals : (x : ℕ) → is_plain x ≡ true → (x == 61) ≡ false
    not_equals x p = unfold is_plain in ground (arith, p)

module _ (t : Text) (f : IsFaithful t) where
  entry-IsClosed : (k w : Bytes) → IsPlain k → IsClosed w → IsClosed (k ++ 61 ∷ w)
  entry-IsClosed k w p c =
      item_from-append k (61 ∷ w) (outside 0) (outside 0) (plain-IsClosed k p) ∙ equals w ∙ c
    where
      equals : (w : Bytes) → item_from (outside 0) (61 ∷ w) ≡ item_from (outside 0) w
      equals w = unfold item_from item_step in refl

  format_entry-IsClosed : (e : Bytes × Bytes) → IsEntry e → IsClosed (format_entry t e)
  unfolding format_entry
  format_entry-IsClosed (k, v) i =
      entry-IsClosed k (format_value t v) i.plain (format_value-IsWritten t v f i.value).closed

  formats_closed : (s : Settings) → All IsEntry s → AllClosed (map (format_entry t) s)
  formats_closed [] h = tt
  formats_closed (e ∷ s) (i, h) = (format_entry-IsClosed e i, formats_closed s h)

  format_entry-IsText : (e : Bytes × Bytes) → IsEntry e → IsText (format_entry t e)
  unfolding format_entry
  format_entry-IsText (k, v) i =
      plain-IsText k (61 ∷ format_value t v) i.plain
        (IsText-ascii 61 (format_value t v) refl (format_value-IsWritten t v f i.value).valid)

  formats_valid : (s : Settings) → All IsEntry s → All IsText (map (format_entry t) s)
  formats_valid [] h = tt
  formats_valid (e ∷ s) (i, h) = (format_entry-IsText e i, formats_valid s h)

  trim_key : (k : Bytes) → (length k == 0) ≡ false → IsPlain k → t.trim_space k ≡ k
  trim_key [] n p = absurd (cc)
  trim_key (x ∷ k) n p = f.trim_visible (x ∷ k) (plain-first x k p) (plain-last x k p)

  trim_entry :
      (k w : Bytes)
      → (length k == 0) ≡ false
      → IsPlain k
      → last_is is_graphic w ≡ true
      → t.trim_space (k ++ 61 ∷ w) ≡ k ++ 61 ∷ w
  trim_entry [] w n p l = absurd (cc)
  trim_entry (x ∷ k) w n p l =
      f.trim_visible (x ∷ k ++ 61 ∷ w) (starts (plain-first x k p))
        (last_is-append is_graphic (x ∷ k) 61 w ∙ ends w l)
    where
      starts : first_is is_graphic (x ∷ k) ≡ true → first_is is_graphic (x ∷ k ++ 61 ∷ w) ≡ true
      starts h = unfold first_is in h

      ends : (w : Bytes) → last_is is_graphic w ≡ true → last_is is_graphic (61 ∷ w) ≡ true
      ends [] h = absurd (none_last h)
        where
          none_last : last_is is_graphic [] ≡ true → ⊥
          none_last h = unfold last_is in cc
      ends (y ∷ w) h = unfold last_is in h

  not_empty : (k w : Bytes) → (length (k ++ 61 ∷ w) == 0) ≡ false
  not_empty [] w = ground arith
  not_empty (x ∷ k) w = ground arith

  add_item-store :
      (e : Bytes × Bytes) (out : Settings)
      → IsEntry e
      → add_item t (format_entry t e) out ≡ store e.0 e.1 out
  unfolding add_item format_entry add_cut
  add_item-store (k, v) out i =
      let w = format_value-IsWritten t v f i.value in
      let trimmed = trim_entry k (format_value t v) i.named i.plain w.last in
      let there = not_empty k (format_value t v) in
      let halves = cut_key k (format_value t v) i.plain in
      let key = trim_key k i.named i.plain in
      let value = w.trimmed in
      rw trimmed (rw there (rw halves (rw key (rw value (rw w.back refl)))))

  add_items-store_all :
      (s out : Settings)
      → All IsEntry s
      → for_each (add_item t) (map (format_entry t) s) out ≡ store_all s out
  unfolding for_each
  add_items-store_all [] out h = refl
  add_items-store_all (e ∷ s) out (i, h) =
      ap (for_each (add_item t) (map (format_entry t) s)) (add_item-store e out i)
      ∙ add_items-store_all s (store e.0 e.1 out) h

  -- The items between the parentheses.
  parse_items-join :
      (s : Settings)
      → All IsEntry s
      → parse_items t (split_top_level (join (map (format_entry t) s))) ≡ store_all s []
  unfolding parse_items for_each
  parse_items-join [] h = empty_items
    where
      empty_items : for_each (add_item t) (split_top_level (join [])) [] ≡ []
      empty_items =
          unfold for_each split_top_level split_from rune_text join add_item in rw f.trim_empty refl
  parse_items-join (e ∷ s) (i, h) =
      ap (λ items. for_each (add_item t) items [])
        (split_top_level-join (format_entry t e) (map (format_entry t) s)
          (format_entry-IsClosed e i) (formats_closed s h) (format_entry-IsText e i)
          (formats_valid s h))
      ∙ add_items-store_all (e ∷ s) [] (i, h)

  -- Where the marker stands in a serialised file.
  index_of-header :
      (rest : Bytes) → index_of (section_header ++ 10 ∷ (marker ++ rest)) marker ≡ some 35
  unfolding index_of next_index has_prefix
  index_of-header rest = refl

  find_closing_paren-header :
      (ws : List Bytes) (rest : Bytes)
      → AllClosed ws
      → find_closing_paren (section_header ++ 10 ∷ (marker ++ (join ws ++ 41 ∷ rest))) 50
        ≡ some (51 + length (join ws))
  unfolding find_closing_paren
  find_closing_paren-header ws rest c = opened ∙ find_from-join ws 51 rest c
    where
      opened :
          find_from (outside 0) 50 (40 ∷ (join ws ++ 41 ∷ rest))
          ≡ find_from (outside 1) 51 (join ws ++ 41 ∷ rest)
      opened = unfold find_from paren_step in refl

  between : (w rest : Bytes) → take (51 + length w - 51) (w ++ rest) ≡ w
  between w rest = ap (λ n. take n (w ++ rest)) (omega arith) ∙ take-append w rest

  parse-serialize :
      (s : Settings) → All IsEntry s → parse t (serialize t s) ≡ some (store_all (sort s) [])
  unfolding parse serialize parse_at parse_between
  parse-serialize s h =
      let items = map (format_entry t) (sort s) in
      let entries = All-sort IsEntry s h in
      rw (index_of-header (join items ++ 41 ∷ 10 ∷ [])) (
        rw (find_closing_paren-header items (10 ∷ []) (formats_closed (sort s) entries)) (
          ap some (
            ap (λ w. parse_items t (split_top_level w)) (between (join items) (41 ∷ 10 ∷ []))
            ∙ parse_items-join (sort s) entries)))

-- `Parse` undoes `Serialize`: if no key stands twice, every key is not empty and has only plain
-- visible signs of ASCII, every value that begins and ends as parentheses closes what it opens and
-- is valid UTF-8, and Go's library trims, quotes, unquotes and compares with the bare words as
-- `IsFaithful` says, then what was serialised is parsed, and every key reads as before.
pub parse-serialize-lookup :
    (t : Text) (s : Settings)
    → IsFaithful t
    → DistinctKeys s
    → All IsEntry s
    → (p : Settings) × (parse t (serialize t s) ≡ some p) × ((k : Bytes) → lookup k p ≡ lookup k s)
parse-serialize-lookup t s f d h = (
  store_all (sort s) [],
  parse-serialize t f s h,
  λ k. lookup-store_all k (sort s) (sort-DistinctKeys s d) ∙ lookup-sort k s d,
)
