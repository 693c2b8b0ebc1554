-- ===== src/Palconfig/Runes.antt =====
-- backend/internal/palconfig/settings.go: what `for _, r := range s` and WriteRune make of a text. A
-- byte that begins no rune of UTF-8 is read as U+FFFD, one byte wide, and written as its three bytes.
use pal_panel_host_wine.Prelude.{
  ℕ, zero, suc, ◌≡◌, refl, ap, Bool, true, false, ◌&&◌, ◌||◌, [], ◌∷◌, ◌++◌, Bytes, ltb, leb, ◌==◌,
  if◌then◌else◌,
}

-- How many bytes follow the first byte of a rune, and the range of the one behind it.
unfoldable pub extra : ℕ → ℕ
extra x = if ltb x 128 then 0 else if ltb x 224 then 1 else if ltb x 240 then 2 else 3

unfoldable pub lowest : ℕ → ℕ
lowest x = if x == 224 then 160 else if x == 240 then 144 else 128

unfoldable pub highest : ℕ → ℕ
highest x = if x == 237 then 159 else if x == 244 then 143 else 191

unfoldable pub continues : ℕ → ℕ → ℕ → Bytes → Bool
continues zero lo hi xs = true
continues (suc n) lo hi [] = false
continues (suc n) lo hi (x ∷ xs) = (leb lo x && leb x hi) && continues n 128 191 xs

-- Whether a rune begins with `x` before `xs`.
unfoldable pub is_rune : ℕ → Bytes → Bool
is_rune x xs =
    (ltb x 128 || (leb 194 x && leb x 244)) && continues (extra x) (lowest x) (highest x) xs

-- The text of the runes, as WriteRune writes them; the number is how many bytes of a rune are left.
unfoldable pub rune_text : ℕ → Bytes → Bytes
rune_text n [] = []
rune_text (suc n) (x ∷ xs) = x ∷ rune_text n xs
rune_text zero (x ∷ xs) = elim (is_rune x xs) [
  | true ↦ x ∷ rune_text (extra x) xs
  | false ↦ 239 ∷ 191 ∷ 189 ∷ rune_text zero xs
]

unfoldable pub is_text : ℕ → Bytes → Bool
is_text zero [] = true
is_text (suc n) [] = false
is_text (suc n) (x ∷ xs) = is_text n xs
is_text zero (x ∷ xs) = is_rune x xs && is_text (extra x) xs

-- Valid UTF-8.
abbrev pub IsText : Bytes → Type 0
IsText w = is_text 0 w ≡ true

both : (p q : Bool) → (p && q) ≡ true → (p ≡ true) × (q ≡ true)
both true q h = (refl, h)
both false q h = absurd (cc)

-- Valid text stays as it is.
rune_text-is_text : (n : ℕ) (w : Bytes) → is_text n w ≡ true → rune_text n w ≡ w
unfolding rune_text is_text
rune_text-is_text n [] h = refl
rune_text-is_text (suc n) (x ∷ xs) h = ap (λ w. x ∷ w) (rune_text-is_text n xs h)
rune_text-is_text zero (x ∷ xs) h =
    let (r, t) = both (is_rune x xs) (is_text (extra x) xs) h in
    rw (r, rune_text) (ap (λ w. x ∷ w) (rune_text-is_text (extra x) xs t))

pub rune_text-IsText : (w : Bytes) → IsText w → rune_text 0 w ≡ w
rune_text-IsText w h = rune_text-is_text 0 w h

continues-append :
    (n lo hi : ℕ) (xs ys : Bytes)
    → continues n lo hi xs ≡ true
    → continues n lo hi (xs ++ ys) ≡ true
unfolding continues
continues-append zero lo hi xs ys h = refl
continues-append (suc n) lo hi [] ys h = absurd (cc)
continues-append (suc n) lo hi (x ∷ xs) ys h =
    let (a, b) = both (leb lo x && leb x hi) (continues n 128 191 xs) h in
    rw a (continues-append n 128 191 xs ys b)

is_rune-append : (x : ℕ) (xs ys : Bytes) → is_rune x xs ≡ true → is_rune x (xs ++ ys) ≡ true
unfolding is_rune
is_rune-append x xs ys h =
    let (a, b) =
      both (ltb x 128 || (leb 194 x && leb x 244)) (continues (extra x) (lowest x) (highest x) xs)
        h in
    rw a (continues-append (extra x) (lowest x) (highest x) xs ys b)

is_text-append : (n : ℕ) (v w : Bytes) → is_text n v ≡ true → IsText w → is_text n (v ++ w) ≡ true
unfolding is_text
is_text-append zero [] w h t = t
is_text-append (suc n) [] w h t = absurd (cc)
is_text-append (suc n) (x ∷ v) w h t = is_text-append n v w h t
is_text-append zero (x ∷ v) w h t =
    let (r, l) = both (is_rune x v) (is_text (extra x) v) h in
    rw (is_rune-append x v w r) (is_text-append (extra x) v w l t)

pub IsText-append : (v w : Bytes) → IsText v → IsText w → IsText (v ++ w)
IsText-append v w h t = is_text-append 0 v w h t

-- An ASCII byte is a rune.
pub IsText-ascii : (x : ℕ) (w : Bytes) → ltb x 128 ≡ true → IsText w → IsText (x ∷ w)
unfolding is_text is_rune continues extra
IsText-ascii x w h t = rw h t
