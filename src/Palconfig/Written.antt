-- ===== src/Palconfig/Written.antt =====
-- The values as `format_value` writes them, and what Go's library is relied on for.
use pal_panel_host_wine.Prelude.{
  ℕ, ◌≡◌, ◌⊎◌, refl, inl, inr, Bool, true, false, not, ◌&&◌, some, [], ◌∷◌, ◌++◌, Bytes, length,
  ltb, ◌==◌, if◌then◌else◌, Bool-cases, All, All-weaken, arith,
}
use mathlib.Core.Path.{subst}
use mathlib.Core.List.{append-nil}
use pal_panel_host_wine.Palconfig.{
  Text, outside, starts_with, ends_with, is_word, or_text, unquote, format_value,
}
use pal_panel_host_wine.Palconfig.Runes.{IsText, IsText-ascii, is_text, is_rune, continues, extra}
use pal_panel_host_wine.Palconfig.Items.{item_step, item_from, IsClosed}

-- A visible ASCII sign.
unfoldable pub is_graphic : ℕ → Bool
is_graphic x = ltb 32 x && ltb x 127

-- One that has no meaning of its own: not a backslash, quote, parenthesis, comma or equals sign.
unfoldable pub is_plain : ℕ → Bool
is_plain x =
    is_graphic x
    && (not (x == 92)
        && (not (x == 34)
            && (not (x == 40) && (not (x == 41) && (not (x == 44) && not (x == 61))))))

-- Whether the first and the last byte have the property.
unfoldable pub first_is : (ℕ → Bool) → Bytes → Bool
first_is p [] = false
first_is p (x ∷ xs) = p x

unfoldable pub last_is : (ℕ → Bool) → Bytes → Bool
last_is p [] = false
last_is p (x ∷ []) = p x
last_is p (x ∷ y ∷ ys) = last_is p (y ∷ ys)

abbrev pub IsPlain : Bytes → Type 0
IsPlain v = All (λ x. is_plain x ≡ true) v

-- A byte that no scan looks for in a value: not a backslash, quote, parenthesis or comma.
unfoldable pub is_bare : ℕ → Bool
is_bare x = not (x == 92) && (not (x == 34) && (not (x == 40) && (not (x == 41) && not (x == 44))))

-- What Go's library is known for. TrimSpace leaves a text between visible ASCII signs alone. Of a
-- text that ToLower turns into one of the six words, it is not said that it is ASCII: "İtem" is one
-- for "item". But it has none of the signs that the scans look for, no space at its ends, and ends in
-- a visible sign. A number for ParseFloat has only plain signs. Quote gives one string literal in
-- UTF-8, and Unquote undoes it.
pub record IsFaithful (t : Text) : Type 0 where
  pub trim_empty : t.trim_space [] ≡ []
  pub trim_visible :
      (v : Bytes) → first_is is_graphic v ≡ true → last_is is_graphic v ≡ true → t.trim_space v ≡ v
  pub word_bare : (v : Bytes) → is_word t (t.to_lower v) ≡ true → All (λ x. is_bare x ≡ true) v
  pub word_text : (v : Bytes) → is_word t (t.to_lower v) ≡ true → IsText v
  pub word_trimmed : (v : Bytes) → is_word t (t.to_lower v) ≡ true → t.trim_space v ≡ v
  pub word_last : (v : Bytes) → is_word t (t.to_lower v) ≡ true → last_is is_graphic v ≡ true
  pub float_plain : (v : Bytes) → t.is_float v ≡ true → IsPlain v
  pub quote_closed : (v : Bytes) → IsClosed (t.quote v)
  pub quote_text : (v : Bytes) → IsText (t.quote v)
  pub quote_long : (v : Bytes) → ltb 1 (length (t.quote v)) ≡ true
  pub quote_first : (v : Bytes) → starts_with 34 (t.quote v) ≡ true
  pub quote_last : (v : Bytes) → ends_with 34 (t.quote v) ≡ true
  pub unquote_quote : (v : Bytes) → t.unquote (t.quote v) ≡ some v
  pub unquote_empty : t.unquote (34 ∷ 34 ∷ []) ≡ some []

-- Bare bytes are passed over.
bare_step : (x d : ℕ) → is_bare x ≡ true → item_step x (outside d) ≡ some (outside d)
unfolding is_bare item_step
bare_step x d h =
    let b : (x == 92) ≡ false = ground (arith, h) in
    let q : (x == 34) ≡ false = ground (arith, h) in
    let o : (x == 40) ≡ false = ground (arith, h) in
    let c : (x == 41) ≡ false = ground (arith, h) in
    let m : (x == 44) ≡ false = ground (arith, h) in rw b (rw q (rw o (rw c (rw m refl))))

bare-IsClosed : (v : Bytes) → All (λ x. is_bare x ≡ true) v → IsClosed v
unfolding item_from
bare-IsClosed [] h = refl
bare-IsClosed (x ∷ v) (p, h) = rw (bare_step x 0 p, item_from) (bare-IsClosed v h)

pub is_bare-is_plain : (x : ℕ) → is_plain x ≡ true → is_bare x ≡ true
unfolding is_plain is_bare is_graphic
is_bare-is_plain x h = ground (arith, h)

pub plain-IsClosed : (v : Bytes) → IsPlain v → IsClosed v
plain-IsClosed v h =
    bare-IsClosed v
      (All-weaken (λ x. is_plain x ≡ true) (λ x. is_bare x ≡ true) is_bare-is_plain v h)

plain_ascii : (x : ℕ) → is_plain x ≡ true → ltb x 128 ≡ true
unfolding is_plain is_graphic
plain_ascii x h = ground (arith, h)

pub plain-IsText : (v w : Bytes) → IsPlain v → IsText w → IsText (v ++ w)
plain-IsText [] w h t = t
plain-IsText (x ∷ v) w (p, h) t = IsText-ascii x (v ++ w) (plain_ascii x p) (plain-IsText v w h t)

graphic_first : (x : ℕ) → is_plain x ≡ true → is_graphic x ≡ true
unfolding is_plain
graphic_first x h = left (is_graphic x) _ h
  where
    left : (p q : Bool) → (p && q) ≡ true → p ≡ true
    left true q h = refl
    left false q h = h

pub plain-first : (x : ℕ) (v : Bytes) → IsPlain (x ∷ v) → first_is is_graphic (x ∷ v) ≡ true
unfolding first_is
plain-first x v (p, h) = graphic_first x p

pub plain-last : (x : ℕ) (v : Bytes) → IsPlain (x ∷ v) → last_is is_graphic (x ∷ v) ≡ true
unfolding last_is
plain-last x [] (p, h) = graphic_first x p
plain-last x (y ∷ v) (p, h) = plain-last y v h

pub last_is-append :
    (p : ℕ → Bool) (v : Bytes) (x : ℕ) (w : Bytes) → last_is p (v ++ x ∷ w) ≡ last_is p (x ∷ w)
unfolding last_is
last_is-append p [] x w = refl
last_is-append p (y ∷ []) x w = refl
last_is-append p (y ∷ z ∷ v) x w = last_is-append p (z ∷ v) x w

ends-last :
    (c : ℕ) (v : Bytes) → is_graphic c ≡ true → ends_with c v ≡ true → last_is is_graphic v ≡ true
unfolding ends_with last_is
ends-last c [] g h = h
ends-last c (x ∷ []) g h = let e : x ≡ c = ground (arith, h) in rw e g
ends-last c (x ∷ y ∷ ys) g h = ends-last c (y ∷ ys) g h

starts-first :
    (c : ℕ) (v : Bytes)
    → is_graphic c ≡ true
    → starts_with c v ≡ true
    → first_is is_graphic v ≡ true
unfolding starts_with first_is
starts-first c [] g h = h
starts-first c (x ∷ xs) g h = let e : x ≡ c = ground (arith, h) in rw e g

-- A value that is not quoted is not unquoted.
unquote_bare : (t : Text) (v : Bytes) → starts_with 34 v ≡ false → unquote t v ≡ v
unfolding unquote
unquote_bare t v h = rw h (drop_test (ltb 1 (length v)))
  where
    drop_test : (b : Bool) → (if b && false then or_text t v (t.unquote v) else v) ≡ v
    drop_test true = refl
    drop_test false = refl

-- What is needed of a value as it is written.
pub record IsWritten (t : Text) (v written : Bytes) : Type 0 where
  pub closed : IsClosed written
  pub valid : IsText written
  pub trimmed : t.trim_space written ≡ written
  pub last : last_is is_graphic written ≡ true
  pub back : unquote t written ≡ v

-- A value between parentheses closes what it opens, and is valid UTF-8.
abbrev pub IsValue : Bytes → Type 0
IsValue v = ((starts_with 40 v && ends_with 41 v) ≡ false) ⊎ (IsClosed v × IsText v)

plain-IsWritten :
    (t : Text) (v : Bytes) → IsFaithful t → (length v == 0) ≡ false → IsPlain v → IsWritten t v v
plain-IsWritten t [] f n h = absurd (cc)
plain-IsWritten t (x ∷ v) f n h = record {
  closed = plain-IsClosed (x ∷ v) h;
  valid = subst IsText (append-nil (x ∷ v)) (plain-IsText (x ∷ v) [] h (unfold is_text in refl));
  trimmed = f.trim_visible (x ∷ v) (plain-first x v h) (plain-last x v h);
  last = plain-last x v h;
  back = unquote_bare t (x ∷ v) (not_mark x (h.0));
}
  where
    not_mark : (x : ℕ) → is_plain x ≡ true → starts_with 34 (x ∷ v) ≡ false
    not_mark x h = unfold is_plain starts_with in ground (arith, h)

word-IsWritten :
    (t : Text) (v : Bytes) → IsFaithful t → is_word t (t.to_lower v) ≡ true → IsWritten t v v
word-IsWritten t v f word = record {
  closed = bare-IsClosed v (f.word_bare v word);
  valid = f.word_text v word;
  trimmed = f.word_trimmed v word;
  last = f.word_last v word;
  back = unquote_bare t v (not_mark v (f.word_bare v word));
}
  where
    not_mark : (v : Bytes) → All (λ x. is_bare x ≡ true) v → starts_with 34 v ≡ false
    not_mark [] h = unfold starts_with in refl
    not_mark (x ∷ v) h = let p = h.0 in (unfold is_bare starts_with in ground (arith, p))

both : (p q : Bool) → (p && q) ≡ true → (p ≡ true) × (q ≡ true)
both true q h = (refl, h)
both false q h = absurd (cc)

paren-IsWritten :
    (t : Text) (v : Bytes)
    → (starts_with 40 v && ends_with 41 v) ≡ true
    → IsFaithful t
    → IsValue v
    → IsWritten t v v
paren-IsWritten t v h f (inl n) = absurd (ground (arith, h, n))
paren-IsWritten t v h f (inr c) =
    let (s, e) = both (starts_with 40 v) (ends_with 41 v) h in
    record {
      closed = c.0;
      valid = c.1;
      trimmed =
          f.trim_visible v (starts-first 40 v (unfold is_graphic in refl) s)
            (ends-last 41 v (unfold is_graphic in refl) e);
      last = ends-last 41 v (unfold is_graphic in refl) e;
      back = unquote_bare t v (other v s);
    }
  where
    other : (v : Bytes) → starts_with 40 v ≡ true → starts_with 34 v ≡ false
    other [] h = unfold starts_with in refl
    other (x ∷ xs) h = unfold starts_with in ground (arith, h)

quote-IsWritten : (t : Text) (v : Bytes) → IsFaithful t → IsWritten t v (t.quote v)
unfolding unquote or_text
quote-IsWritten t v f = record {
  closed = f.quote_closed v;
  valid = f.quote_text v;
  trimmed =
      f.trim_visible (t.quote v)
        (starts-first 34 (t.quote v) (unfold is_graphic in refl) (f.quote_first v))
        (ends-last 34 (t.quote v) (unfold is_graphic in refl) (f.quote_last v));
  last = ends-last 34 (t.quote v) (unfold is_graphic in refl) (f.quote_last v);
  back =
      rw (f.quote_long v)
        (rw (f.quote_first v) (rw (f.quote_last v) (rw (f.unquote_quote v) refl)));
}

pub format_value-IsWritten :
    (t : Text) (v : Bytes) → IsFaithful t → IsValue v → IsWritten t v (format_value t v)
unfolding format_value
format_value-IsWritten t v f i = elim (Bool-cases (length v == 0)) [
  | inl empty ↦ rw empty (empty_written v empty)
  | inr full ↦ elim (Bool-cases (is_word t (t.to_lower v))) [
    | inl word ↦ rw full (rw word (word-IsWritten t v f word))
    | inr no_word ↦ elim (Bool-cases (starts_with 40 v && ends_with 41 v)) [
      | inl paren ↦ rw full (rw no_word (rw paren (paren-IsWritten t v paren f i)))
      | inr no_paren ↦ elim (Bool-cases (t.is_float v)) [
        | inl float ↦ rw full (
            rw no_word
              (rw no_paren (rw float (plain-IsWritten t v f full (f.float_plain v float)))))
        | inr text ↦ rw full (rw no_word (rw no_paren (rw text (quote-IsWritten t v f))))
      ]
    ]
  ]
]
  where
    empty_back : unquote t (34 ∷ 34 ∷ []) ≡ []
    empty_back = unfold unquote starts_with ends_with or_text in rw f.unquote_empty refl

    empty_written : (v : Bytes) → (length v == 0) ≡ true → IsWritten t v (34 ∷ 34 ∷ [])
    empty_written [] h = record {
      closed = unfold item_from item_step in refl;
      valid = unfold is_text is_rune continues extra in refl;
      trimmed =
          f.trim_visible (34 ∷ 34 ∷ []) (unfold first_is is_graphic in refl)
            (unfold last_is is_graphic in refl);
      last = unfold last_is is_graphic in refl;
      back = empty_back;
    }
    empty_written (x ∷ xs) h = absurd (ground (arith, h))
