-- ===== src/Palconfig.antt =====
-- backend/internal/palconfig/settings.go: the line of settings in the game's configuration file. A
-- Go map is an association list, and a text its bytes. splitTopLevel loops over runes; here it loops
-- over the bytes of the runes as it writes them, since the signs that it looks for are ASCII, and no
-- byte of another rune is.
pub mod Items
pub mod Lookup
pub mod RoundTrip
pub mod Runes
pub mod Merged
pub mod Written
use pal_panel_host_wine.Palconfig.Runes.{rune_text}
use pal_panel_host_wine.Prelude.Int.{ℤ}
use pal_panel_host_wine.Prelude.{
  ℕ, suc, ◌+◌, ◌-◌, Bool, true, false, not, ◌&&◌, ◌||◌, Option, none, some, List, [], ◌∷◌, ◌++◌,
  map, Bytes, codes, bytes_eq, has_prefix, length, take, drop, ltb, ◌==◌, if◌then◌else◌, for_each,
}

-- Go's strings, strconv.Quote and Unquote, whether ParseFloat reads a number, and how numbers are
-- printed, a float by its size and its bits.
pub record Text : Type 0 where
  pub trim_space : Bytes → Bytes
  pub to_lower : Bytes → Bytes
  pub is_float : Bytes → Bool
  pub quote : Bytes → Bytes
  pub unquote : Bytes → Option Bytes
  pub format_float : ℕ → ℕ → Bytes
  pub print_int : ℤ → Bytes

abbrev pub Settings : Type 0
Settings = List (Bytes × Bytes)

-- A new value of a setting: one constructor for each Go type, and what fmt.Sprint prints of others.
pub data Update : Type 0 where
  string : Bytes → Update
  bool : Bool → Update
  float64 float32 : ℕ → Update
  int int64 : ℤ → Update
  other : Bytes → Update

-- `settings[k]`.
unfoldable pub lookup : Bytes → Settings → Option Bytes
lookup k [] = none
lookup k ((j, v) ∷ s) = let later = lookup k s in if bytes_eq j k then some v else later

-- `settings[k] = v`.
unfoldable pub store : Bytes → Bytes → Settings → Settings
store k v [] = (k, v) ∷ []
store k v ((j, w) ∷ s) =
    let rest = store k v s in if bytes_eq j k then (j, v) ∷ s else (j, w) ∷ rest

-- The state of a scan.
pub record Scan : Type 0 where
  pub quoted : Bool
  pub escaped : Bool
  pub depth : ℕ

abbrev pub outside : ℕ → Scan
outside d = record { quoted = false; escaped = false; depth = d }

-- One round of splitTopLevel, and none at a comma that splits.
unfoldable pub split_step : ℕ → Scan → Option Scan
split_step x s =
    if s.escaped
    then some (record s { escaped = false })
    else if x == 92
    then some (record s { escaped = s.quoted })
    else if x == 34
    then some (record s { quoted = not s.quoted })
    else if x == 40
    then some (if s.quoted then s else record s { depth = suc s.depth })
    else if x == 41
    then some (if not s.quoted && ltb 0 s.depth then record s { depth = s.depth - 1 } else s)
    else if x == 44
    then (if not s.quoted && s.depth == 0 then none else some s)
    else some s

unfoldable pub split_from : Scan → Bytes → Bytes → List Bytes
split_from s item [] = item ∷ []
split_from s item (x ∷ xs) = elim (split_step x s) [
  | none ↦ item ∷ split_from s [] xs
  | some t ↦ split_from t (item ++ x ∷ []) xs
]

unfoldable pub split_top_level : Bytes → List Bytes
split_top_level s = split_from (outside 0) [] (rune_text 0 s)

-- One round of findClosingParen, and none where it returns. The scan begins at a parenthesis, so a
-- closing one is never met at depth 0.
unfoldable pub paren_step : ℕ → Scan → Option Scan
paren_step x s =
    if s.escaped
    then some (record s { escaped = false })
    else if x == 92 && s.quoted
    then some (record s { escaped = true })
    else if x == 34
    then some (record s { quoted = not s.quoted })
    else if s.quoted
    then some s
    else if x == 40
    then some (record s { depth = suc s.depth })
    else if x == 41
    then (if s.depth == 1 then none else some (record s { depth = s.depth - 1 }))
    else some s

unfoldable pub find_from : Scan → ℕ → Bytes → Option ℕ
find_from s i [] = none
find_from s i (x ∷ xs) = elim (paren_step x s) [ none ↦ some i | some t ↦ find_from t (suc i) xs ]

unfoldable pub find_closing_paren : Bytes → ℕ → Option ℕ
find_closing_paren s open_at = find_from (outside 0) open_at (drop open_at s)

unfoldable pub next_index : Option ℕ → Option ℕ
next_index none = none
next_index (some i) = some (suc i)

-- `strings.Index`.
unfoldable pub index_of : Bytes → Bytes → Option ℕ
index_of [] t = if has_prefix [] t then some 0 else none
index_of (x ∷ xs) t =
    let later = next_index (index_of xs t) in if has_prefix (x ∷ xs) t then some 0 else later

unfoldable pub with_first : ℕ → Option (Bytes × Bytes) → Option (Bytes × Bytes)
with_first x none = none
with_first x (some (a, b)) = some (x ∷ a, b)

-- `strings.Cut` at a byte.
unfoldable pub cut : ℕ → Bytes → Option (Bytes × Bytes)
cut c [] = none
cut c (x ∷ xs) = let later = with_first x (cut c xs) in if x == c then some ([], xs) else later

-- Whether the last byte is `c`.
unfoldable pub ends_with : ℕ → Bytes → Bool
ends_with c [] = false
ends_with c (x ∷ []) = x == c
ends_with c (x ∷ y ∷ ys) = ends_with c (y ∷ ys)

unfoldable pub starts_with : ℕ → Bytes → Bool
starts_with c [] = false
starts_with c (x ∷ xs) = x == c

abbrev pub marker : Bytes
marker = codes "OptionSettings=("

abbrev pub section_header : Bytes
section_header = codes "[/Script/Pal.PalGameWorldSettings]"

-- Keys in the order of their bytes.
unfoldable pub before : Bytes → Bytes → Bool
before [] ys = true
before (x ∷ xs) [] = false
before (x ∷ xs) (y ∷ ys) = ltb x y || (x == y && before xs ys)

unfoldable pub insert : Bytes × Bytes → Settings → Settings
insert e [] = e ∷ []
insert e (f ∷ s) = let rest = insert e s in if before e.0 f.0 then e ∷ f ∷ s else f ∷ rest

unfoldable pub sort : Settings → Settings
sort [] = []
sort (e ∷ s) = insert e (sort s)

-- `strings.Join` with a comma.
unfoldable pub join : List Bytes → Bytes
join [] = []
join (x ∷ []) = x
join (x ∷ y ∷ ys) = x ++ 44 ∷ join (y ∷ ys)

module _ (t : Text) where
  unfoldable pub or_text : Bytes → Option Bytes → Bytes
  or_text v none = v
  or_text v (some u) = u

  unfoldable pub unquote : Bytes → Bytes
  unquote v =
      if ltb 1 (length v) && (starts_with 34 v && ends_with 34 v)
      then or_text v (t.unquote v)
      else v

  -- The words that stand for themselves.
  unfoldable pub is_word : Bytes → Bool
  is_word lower =
      bytes_eq lower (codes "true")
      || bytes_eq lower (codes "false")
      || bytes_eq lower (codes "none")
      || bytes_eq lower (codes "item")
      || bytes_eq lower (codes "itemandequipment")
      || bytes_eq lower (codes "all")

  unfoldable pub format_value : Bytes → Bytes
  format_value v =
      if length v == 0
      then 34 ∷ 34 ∷ []
      else if is_word (t.to_lower v)
      then v
      else if starts_with 40 v && ends_with 41 v
      then v
      else if t.is_float v
      then v
      else t.quote v

  unfoldable pub format_entry : Bytes × Bytes → Bytes
  format_entry (k, v) = k ++ 61 ∷ format_value v

  unfoldable pub serialize : Settings → Bytes
  serialize settings =
      section_header ++ 10 ∷ (marker ++ (join (map format_entry (sort settings)) ++ 41 ∷ 10 ∷ []))

  unfoldable pub add_cut : Option (Bytes × Bytes) → Settings → Settings
  add_cut none out = out
  add_cut (some (k, v)) out = store (t.trim_space k) (unquote (t.trim_space v)) out

  unfoldable pub add_item : Bytes → Settings → Settings
  add_item item out =
      if length (t.trim_space item) == 0 then out else add_cut (cut 61 (t.trim_space item)) out

  unfoldable pub parse_items : List Bytes → Settings
  parse_items items = for_each add_item items []

  -- Between the start and the closing parenthesis; none is the error that there is none.
  unfoldable pub parse_between : Bytes → ℕ → Option ℕ → Option Settings
  parse_between content start none = none
  parse_between content start (some stop) =
      some (parse_items (split_top_level (take (stop - start) (drop start content))))

  unfoldable pub parse_at : Bytes → Option ℕ → Option Settings
  parse_at content none = some []
  parse_at content (some i) =
      let start = i + length marker in
      parse_between content start (find_closing_paren content (start - 1))

  unfoldable pub parse : Bytes → Option Settings
  parse content = parse_at content (index_of content marker)

  unfoldable pub any_to_string : Update → Bytes
  any_to_string (string v) = v
  any_to_string (bool b) = if b then codes "True" else codes "False"
  any_to_string (float64 x) = t.format_float 64 x
  any_to_string (float32 x) = t.format_float 32 x
  any_to_string (int n) = t.print_int n
  any_to_string (int64 n) = t.print_int n
  any_to_string (other v) = v

  unfoldable pub merge : Settings → List (Bytes × Update) → Settings
  merge current updates = for_each (λ u next. store u.0 (any_to_string u.1) next) updates current
