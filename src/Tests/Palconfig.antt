-- ===== src/Tests/Palconfig.antt =====
-- The round trip of settings, with a quoting that writes a byte as so many letters.
use pal_panel_host_wine.Prelude.{
  zero, suc, ◌∙◌, ◌+◌, ◌≤◌, ◌==◌, All-weaken, List, ℕ, ◌≡◌, refl, ap, sym, inl, inr, Bool, true,
  false, ◌||◌, ◌&&◌, Option, none, some, [], ◌∷◌, Bytes, codes, bytes_eq, bytes_eq_sound, length,
  Bool-cases, All, arith,
}
use mathlib.Core.List.{append-nil}
use mathlib.Core.Path.{subst}
use pal_panel_host_wine.Palconfig.Merged.{last_update, IsUpdate, parse-serialize-merge}
use pal_panel_host_wine.Palconfig.{
  Update, any_to_string, merge, Text, Settings, Scan, outside, lookup, is_word, starts_with,
  ends_with, serialize, parse,
}
use pal_panel_host_wine.Palconfig.Runes.{
  IsText, IsText-ascii, is_text, is_rune, continues, extra, lowest, highest,
}
use pal_panel_host_wine.Palconfig.Items.{item_step, item_from, IsClosed}
use pal_panel_host_wine.Palconfig.Lookup.{DistinctKeys, or_else}
use pal_panel_host_wine.Palconfig.Written.{
  is_bare, is_bare-is_plain, plain-IsText, plain-last, last_is, is_graphic, is_plain, IsPlain,
  IsFaithful,
}
use pal_panel_host_wine.Palconfig.RoundTrip.{IsEntry, parse-serialize-lookup}

-- `x` times the same letter.
abbrev run : ℕ → Bytes → Bytes
run zero w = w
run (suc n) w = 97 ∷ run n w

abbrev body : Bytes → Bytes
body [] = 34 ∷ []
body (x ∷ xs) = run x (44 ∷ body xs)

abbrev before_text : ℕ → Option Bytes → Option Bytes
before_text x none = none
before_text x (some v) = some (x ∷ v)

abbrev unbody : ℕ → Bytes → Option Bytes
unbody n [] = none
unbody n (y ∷ r) = elim (y == 97) [
  | true ↦ unbody (suc n) r
  | false ↦ elim (y == 44) [ true ↦ before_text n (unbody 0 r) | false ↦ some [] ]
]

abbrev unquote_text : Bytes → Option Bytes
unquote_text [] = none
unquote_text (a ∷ r) = unbody 0 r

abbrev text : Text
text = record {
  trim_space = λ v. v;
  to_lower = λ v. v;
  is_float = λ v. bytes_eq v (codes "1");
  quote = λ v. 34 ∷ body v;
  unquote = unquote_text;
  format_float = λ size x. codes "0";
  print_int = λ n. codes "0";
}

unbody-run : (n x : ℕ) (w : Bytes) → unbody n (run x (44 ∷ w)) ≡ before_text (n + x) (unbody 0 w)
unbody-run n zero w = ap (λ m. before_text m (unbody 0 w)) (omega arith)
unbody-run n (suc x) w = unbody-run (suc n) x w ∙ ap (λ m. before_text m (unbody 0 w)) (omega arith)

unbody-body : (v : Bytes) → unbody 0 (body v) ≡ some v
unbody-body [] = refl
unbody-body (x ∷ v) =
    unbody-run 0 x (body v)
    ∙ ap (λ m. before_text m (unbody 0 (body v))) (omega arith)
    ∙ ap (before_text x) (unbody-body v)

abbrev in_quotes : Scan
in_quotes = record { quoted = true; escaped = false; depth = 0 }

run-closed : (n : ℕ) (w : Bytes) → item_from in_quotes (run n w) ≡ item_from in_quotes w
unfolding item_from item_step
run-closed zero w = refl
run-closed (suc n) w = run-closed n w

body-closed : (v : Bytes) → item_from in_quotes (body v) ≡ some (outside 0)
unfolding item_from item_step
body-closed [] = refl
body-closed (x ∷ v) = run-closed x (44 ∷ body v) ∙ body-closed v

quote-IsClosed : (v : Bytes) → IsClosed (34 ∷ body v)
unfolding item_from item_step
quote-IsClosed v = body-closed v

run-IsText : (n : ℕ) (w : Bytes) → IsText w → IsText (run n w)
run-IsText zero w h = h
run-IsText (suc n) w h = IsText-ascii 97 (run n w) refl (run-IsText n w h)

body-IsText : (v : Bytes) → IsText (body v)
body-IsText [] = IsText-ascii 34 [] refl (unfold is_text in refl)
body-IsText (x ∷ v) = run-IsText x (44 ∷ body v) (IsText-ascii 44 (body v) refl (body-IsText v))

run-last : (n y z : ℕ) (w : Bytes) → ends_with 34 (y ∷ run n (z ∷ w)) ≡ ends_with 34 (z ∷ w)
unfolding ends_with
run-last zero y z w = refl
run-last (suc n) y z w = run-last n 97 z w

body-last : (y : ℕ) (v : Bytes) → ends_with 34 (y ∷ body v) ≡ true
unfolding ends_with
body-last y [] = refl
body-last y (x ∷ v) = run-last x y 44 (body v) ∙ body-last 44 v

run-long : (n z : ℕ) (w : Bytes) → 1 ≤ length (run n (z ∷ w))
run-long zero z w = omega arith
run-long (suc n) z w = omega (arith, run-long n z w)

body-long : (v : Bytes) → 1 ≤ length (body v)
body-long [] = omega arith
body-long (x ∷ v) = run-long x 44 (body v)

abbrev all_plain : Bytes → Bool
all_plain [] = true
all_plain (x ∷ xs) = is_plain x && all_plain xs

IsPlain-all : (v : Bytes) → all_plain v ≡ true → IsPlain v
IsPlain-all [] h = tt
IsPlain-all (x ∷ xs) h = let (p, q) = both (is_plain x) (all_plain xs) h in (p, IsPlain-all xs q)
  where
    both : (b c : Bool) → (b && c) ≡ true → (b ≡ true) × (c ≡ true)
    both true c h = (refl, h)
    both false c h = absurd (cc)

IsPlain-word : (v w : Bytes) → bytes_eq v w ≡ true → IsPlain w → IsPlain v
IsPlain-word v w h p = subst IsPlain (sym (bytes_eq_sound v w h)) p

either : (b c : Bool) → (b || c) ≡ true → (b ≡ false) → c ≡ true
either b c h n = ground (arith, h, n)

words-IsPlain : (v : Bytes) → is_word text v ≡ true → IsPlain v
unfolding is_word is_plain is_graphic
words-IsPlain v h = elim (Bool-cases (bytes_eq v (codes "true"))) [
  | inl w ↦ IsPlain-word v (codes "true") w (IsPlain-all (codes "true") refl)
  | inr n ↦ elim (Bool-cases (bytes_eq v (codes "false"))) [
    | inl w ↦ IsPlain-word v (codes "false") w (IsPlain-all (codes "false") refl)
    | inr n2 ↦ elim (Bool-cases (bytes_eq v (codes "none"))) [
      | inl w ↦ IsPlain-word v (codes "none") w (IsPlain-all (codes "none") refl)
      | inr n3 ↦ elim (Bool-cases (bytes_eq v (codes "item"))) [
        | inl w ↦ IsPlain-word v (codes "item") w (IsPlain-all (codes "item") refl)
        | inr n4 ↦ elim (Bool-cases (bytes_eq v (codes "itemandequipment"))) [
          | inl w ↦
              IsPlain-word v (codes "itemandequipment") w
                (IsPlain-all (codes "itemandequipment") refl)
          | inr n5 ↦
              IsPlain-word v (codes "all") (rw n5 at (rw n4 at (rw n3 at (rw n2 at (rw n at h)))))
                (IsPlain-all (codes "all") refl)
        ]
      ]
    ]
  ]
]

word_bytes : (v : Bytes) → is_word text v ≡ true → All (λ x. is_bare x ≡ true) v
word_bytes v h =
    All-weaken (λ x. is_plain x ≡ true) (λ x. is_bare x ≡ true) is_bare-is_plain v
      (words-IsPlain v h)

word_valid : (v : Bytes) → is_word text v ≡ true → IsText v
word_valid v h =
    subst IsText (append-nil v) (plain-IsText v [] (words-IsPlain v h) (unfold is_text in refl))

word_end : (v : Bytes) → is_word text v ≡ true → last_is is_graphic v ≡ true
word_end [] h = absurd (no_word h)
  where
    no_word : is_word text [] ≡ true → ⊥
    no_word h = unfold is_word bytes_eq in cc
word_end (x ∷ v) h = plain-last x v (words-IsPlain (x ∷ v) h)

text-IsFaithful : IsFaithful text
text-IsFaithful = record {
  trim_empty = refl;
  trim_visible = λ v a b. refl;
  word_bare = word_bytes;
  word_text = word_valid;
  word_trimmed = λ v h. refl;
  word_last = word_end;
  float_plain = λ v h.
      IsPlain-word v (codes "1") h (IsPlain-all (codes "1") (unfold is_plain is_graphic in refl));
  quote_closed = quote-IsClosed;
  quote_text = λ v. IsText-ascii 34 (body v) refl (body-IsText v);
  quote_long = λ v. (let l = body-long v in ground (arith, l));
  quote_first = λ v. (unfold starts_with in refl);
  quote_last = λ v. body-last 34 v;
  unquote_quote = unbody-body;
  unquote_empty = refl;
}

-- A name with a quote and a comma, a list between parentheses, and a number.
abbrev settings : Settings
settings =
    (codes "ServerName", codes "my, \"own\" server")
    ∷ (codes "CrossplayPlatforms", codes "(Steam,Xbox)")
    ∷ (codes "ExpRate", codes "1")
    ∷ []

settings-DistinctKeys : DistinctKeys settings
unfolding lookup bytes_eq
settings-DistinctKeys = (refl, (refl, (refl, tt)))

settings-entries : All IsEntry settings
unfolding is_plain is_graphic starts_with ends_with item_from item_step is_text is_rune continues
    extra lowest highest
settings-entries = (
  record { named = refl; plain = IsPlain-all (codes "ServerName") refl; value = inl refl },
  (
    record {
      named = refl;
      plain = IsPlain-all (codes "CrossplayPlatforms") refl;
      value = inr (refl, refl);
    },
    (record { named = refl; plain = IsPlain-all (codes "ExpRate") refl; value = inl refl }, tt),
  ),
)

parse-serialize-lookup_example :
    (p : Settings) × (parse text (serialize text settings) ≡ some p)
    × ((k : Bytes) → lookup k p ≡ lookup k settings)
parse-serialize-lookup_example =
    parse-serialize-lookup text settings text-IsFaithful settings-DistinctKeys settings-entries

abbrev updates : List (Bytes × Update)
updates = (codes "ExpRate", Update.string (codes "all")) ∷ (codes "IsPvp", Update.bool true) ∷ []

updates-IsUpdate : All (IsUpdate text) updates
unfolding is_plain is_graphic starts_with ends_with any_to_string
updates-IsUpdate = (
  record { named = refl; plain = IsPlain-all (codes "ExpRate") refl; value = inl refl },
  (record { named = refl; plain = IsPlain-all (codes "IsPvp") refl; value = inl refl }, tt),
)

parse-serialize-merge_example :
    (p : Settings) × (parse text (serialize text (merge text settings updates)) ≡ some p)
    × ((k : Bytes) → lookup k p ≡ or_else (last_update text k updates) (lookup k settings))
parse-serialize-merge_example =
    parse-serialize-merge text settings updates text-IsFaithful settings-DistinctKeys
      settings-entries updates-IsUpdate
