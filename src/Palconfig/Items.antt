-- ===== src/Palconfig/Items.antt =====
-- The two scans on a piece of text that closes what it opens.
use pal_panel_host_wine.Prelude.{
  ℕ, suc, ◌+◌, ◌-◌, ◌≡◌, refl, sym, ap, ◌∙◌, inl, inr, Bool, true, false, not, ◌&&◌, Option, none,
  some, List, [], ◌∷◌, ◌++◌, Bytes, length, ltb, ◌==◌, if◌then◌else◌, Bool-cases, All,
  length-append, arith,
}
use mathlib.Core.List.{append_assoc, append-nil}
use pal_panel_host_wine.Palconfig.Runes.{IsText, IsText-append, IsText-ascii, rune_text-IsText}
use pal_panel_host_wine.Palconfig.{
  Scan, outside, split_step, split_from, split_top_level, paren_step, find_from, join,
}

-- One byte of an item: none at a comma or a closing parenthesis that is not its own.
unfoldable pub item_step : ℕ → Scan → Option Scan
item_step x s =
    if s.escaped
    then some (record s { escaped = false })
    else if x == 92
    then some (record s { escaped = s.quoted })
    else if x == 34
    then some (record s { quoted = not s.quoted })
    else if s.quoted
    then some s
    else if x == 40
    then some (record s { depth = suc s.depth })
    else if x == 41
    then (if s.depth == 0 then none else some (record s { depth = s.depth - 1 }))
    else if x == 44
    then (if s.depth == 0 then none else some s)
    else some s

unfoldable pub item_from : Scan → Bytes → Option Scan
item_from s [] = some s
item_from s (x ∷ xs) = elim (item_step x s) [ none ↦ none | some t ↦ item_from t xs ]

-- A text whose quotes and parentheses close, with its commas inside of them.
abbrev pub IsClosed : Bytes → Type 0
IsClosed w = item_from (outside 0) w ≡ some (outside 0)

abbrev scan : Bool → Bool → ℕ → Scan
scan q e d = record { quoted = q; escaped = e; depth = d }

-- The scan inside one more parenthesis.
abbrev pub deeper : Scan → Scan
deeper s = record s { depth = suc s.depth }

no_scan : {t : Scan} → none ≡ some t → ⊥
no_scan h = cc

split_step-item_step :
    (x : ℕ) (q e : Bool) (d : ℕ) (t : Scan)
    → item_step x (scan q e d) ≡ some t
    → split_step x (scan q e d) ≡ some t
unfolding item_step split_step
split_step-item_step x q true d t h = h
split_step-item_step x q false d t h = elim (Bool-cases (x == 92)) [
  | inl backslash ↦ rw backslash (rw backslash at h)
  | inr b ↦ elim (Bool-cases (x == 34)) [
    | inl mark ↦ rw b (rw mark (rw mark at (rw b at h)))
    | inr m ↦ rw b (rw m (rest q (rw m at (rw b at h))))
  ]
]
  where
    rest :
        (q : Bool)
        → (if q
            then some (scan q false d)
            else if x == 40
            then some (scan q false (suc d))
            else if x == 41
            then (if d == 0 then none else some (scan q false (d - 1)))
            else if x == 44
            then (if d == 0 then none else some (scan q false d))
            else some (scan q false d))
          ≡ some t
        → (if x == 40
            then some (if q then scan q false d else scan q false (suc d))
            else if x == 41
            then some (if not q && ltb 0 d then scan q false (d - 1) else scan q false d)
            else if x == 44
            then (if not q && d == 0 then none else some (scan q false d))
            else some (scan q false d))
          ≡ some t
    rest true h = elim (Bool-cases (x == 40)) [
      | inl o ↦ rw o h
      | inr o ↦ elim (Bool-cases (x == 41)) [
        | inl c ↦ rw o (rw c h)
        | inr c ↦ elim (Bool-cases (x == 44)) [
          | inl m ↦ rw o (rw c (rw m h))
          | inr m ↦ rw o (rw c (rw m h))
        ]
      ]
    ]
    rest false h = elim (Bool-cases (x == 40)) [
      | inl o ↦ rw o (rw o at h)
      | inr o ↦
          let h1 = rw o at h in
          elim (Bool-cases (x == 41)) [
            | inl c ↦
                let h2 = rw c at h1 in
                elim (Bool-cases (d == 0)) [
                  | inl zero ↦ absurd (no_scan (rw zero at h2))
                  | inr more ↦
                      let positive : ltb 0 d ≡ true = ground arith in
                      rw o (rw c (rw positive (rw more at h2)))
                ]
            | inr c ↦ let h2 = rw c at h1 in rw o (rw c h2)
          ]
    ]

some-deeper : (s t : Scan) → some s ≡ some t → some (deeper s) ≡ some (deeper t)
some-deeper s t h = let e : s ≡ t = cc in ap (λ s. some (deeper s)) e

paren_step-item_step :
    (x : ℕ) (q e : Bool) (d : ℕ) (t : Scan)
    → item_step x (scan q e d) ≡ some t
    → paren_step x (deeper (scan q e d)) ≡ some (deeper t)
unfolding item_step paren_step
paren_step-item_step x q true d t h = some-deeper (scan q false d) t h
paren_step-item_step x true false d t h = elim (Bool-cases (x == 92)) [
  | inl backslash ↦ rw backslash (some-deeper (scan true true d) t (rw backslash at h))
  | inr b ↦
      let h1 = rw b at h in
      elim (Bool-cases (x == 34)) [
        | inl mark ↦ rw b (rw mark (some-deeper (scan false false d) t (rw mark at h1)))
        | inr m ↦ rw b (rw m (some-deeper (scan true false d) t (rw m at h1)))
      ]
]
paren_step-item_step x false false d t h = elim (Bool-cases (x == 92)) [
  | inl backslash ↦
      let m : (x == 34) ≡ false = ground arith in
      let o : (x == 40) ≡ false = ground arith in
      let c : (x == 41) ≡ false = ground arith in
      rw backslash (rw m (rw o (rw c (some-deeper (scan false false d) t (rw backslash at h)))))
  | inr b ↦
      let h1 = rw b at h in
      elim (Bool-cases (x == 34)) [
        | inl mark ↦ rw b (rw mark (some-deeper (scan true false d) t (rw mark at h1)))
        | inr m ↦
            let h2 = rw m at h1 in
            elim (Bool-cases (x == 40)) [
              | inl o ↦ rw b (rw m (rw o (some-deeper (scan false false (suc d)) t (rw o at h2))))
              | inr o ↦
                  let h3 = rw o at h2 in
                  elim (Bool-cases (x == 41)) [
                    | inl c ↦ rw b (rw m (rw o (rw c (closing (rw c at h3)))))
                    | inr c ↦ rw b (rw m (rw o (rw c (comma (rw c at h3)))))
                  ]
            ]
      ]
]
  where
    closing :
        (if d == 0 then none else some (scan false false (d - 1))) ≡ some t
        → (if suc d == 1 then none else some (scan false false (suc d - 1))) ≡ some (deeper t)
    closing h = elim (Bool-cases (d == 0)) [
      | inl zero ↦ absurd (no_scan (rw zero at h))
      | inr more ↦
          let again : (suc d == 1) ≡ false = ground arith in
          let same : suc d - 1 ≡ suc (d - 1) = ground arith in
          rw again (rw same (some-deeper (scan false false (d - 1)) t (rw more at h)))
    ]

    comma :
        (if x == 44
            then (if d == 0 then none else some (scan false false d))
            else some (scan false false d))
          ≡ some t
        → some (scan false false (suc d)) ≡ some (deeper t)
    comma h = elim (Bool-cases (x == 44)) [
      | inl is_comma ↦ elim (Bool-cases (d == 0)) [
        | inl zero ↦ absurd (no_scan (rw zero at (rw is_comma at h)))
        | inr more ↦ some-deeper (scan false false d) t (rw more at (rw is_comma at h))
      ]
      | inr other ↦ some-deeper (scan false false d) t (rw other at h)
    ]

item_from-cons :
    (x : ℕ) (w : Bytes) (s t : Scan)
    → item_from s (x ∷ w) ≡ some t
    → (u : Scan) × (item_step x s ≡ some u) × (item_from u w ≡ some t)
unfolding item_from
item_from-cons x w s t h = by_step (item_step x s) refl h
  where
    by_step :
        (o : Option Scan)
        → item_step x s ≡ o
        → elim o [ none ↦ none | some t ↦ item_from t w ] ≡ some t
        → (u : Scan) × (item_step x s ≡ some u) × (item_from u w ≡ some t)
    by_step none e h = absurd (no_scan h)
    by_step (some u) e h = (u, e, h)

-- Both scans pass over what an item may hold.
pub split_from-append :
    (w : Bytes) (s t : Scan) (item rest : Bytes)
    → item_from s w ≡ some t
    → split_from s item (w ++ rest) ≡ split_from t (item ++ w) rest
unfolding item_from split_from
split_from-append [] s t item rest h =
    let e : s ≡ t = cc in
    ap (λ s. split_from s item rest) e ∙ ap (λ i. split_from t i rest) (sym (append-nil item))
split_from-append (x ∷ w) s t item rest h =
    let (u, step, later) = item_from-cons x w s t h in
    let split : split_step x s ≡ some u =
      split_step-item_step x s.quoted s.escaped s.depth u step in
    rw (split, split_from)
      (split_from-append w u t (item ++ x ∷ []) rest later
        ∙ ap (λ i. split_from t i rest) (append_assoc item (x ∷ []) w))

pub find_from-append :
    (w : Bytes) (s t : Scan) (i : ℕ) (rest : Bytes)
    → item_from s w ≡ some t
    → find_from (deeper s) i (w ++ rest) ≡ find_from (deeper t) (i + length w) rest
unfolding item_from find_from
find_from-append [] s t i rest h =
    let e : s ≡ t = cc in
    ap (λ s. find_from (deeper s) i rest) e ∙ ap (λ i. find_from (deeper t) i rest) (omega arith)
find_from-append (x ∷ w) s t i rest h =
    let (u, step, later) = item_from-cons x w s t h in
    let passed : paren_step x (deeper s) ≡ some (deeper u) =
      paren_step-item_step x s.quoted s.escaped s.depth u step in
    rw (passed, find_from)
      (find_from-append w u t (suc i) rest later
        ∙ ap (λ i. find_from (deeper t) i rest) (omega arith))

-- Every text of the list is closed.
abbrev pub AllClosed : List Bytes → Type 0
AllClosed ws = All IsClosed ws

pub item_from-append :
    (w v : Bytes) (s t : Scan) → item_from s w ≡ some t → item_from s (w ++ v) ≡ item_from t v
unfolding item_from
item_from-append [] v s t h = let e : s ≡ t = cc in ap (λ s. item_from s v) e
item_from-append (x ∷ w) v s t h =
    let (u, step, later) = item_from-cons x w s t h in
    rw (step, item_from) (item_from-append w v u t later)

-- Splitting undoes joining.
split_from-join :
    (w : Bytes) (ws : List Bytes)
    → IsClosed w
    → AllClosed ws
    → split_from (outside 0) [] (join (w ∷ ws)) ≡ w ∷ ws
unfolding join
split_from-join w [] c cs =
    ap (split_from (outside 0) []) (sym (append-nil w))
    ∙ split_from-append w (outside 0) (outside 0) [] [] c
    ∙ (done w)
  where
    done : (w : Bytes) → split_from (outside 0) w [] ≡ w ∷ []
    done w = unfold split_from in refl
split_from-join w (v ∷ vs) c (cv, cs) =
    split_from-append w (outside 0) (outside 0) [] (44 ∷ join (v ∷ vs)) c
    ∙ at_comma w (join (v ∷ vs))
    ∙ ap (λ l. w ∷ l) (split_from-join v vs cv cs)
  where
    at_comma :
        (w rest : Bytes) → split_from (outside 0) w (44 ∷ rest) ≡ w ∷ split_from (outside 0) [] rest
    at_comma w rest = unfold split_from split_step in refl

IsText-join : (w : Bytes) (ws : List Bytes) → IsText w → All IsText ws → IsText (join (w ∷ ws))
unfolding join
IsText-join w [] t ts = t
IsText-join w (v ∷ vs) t (tv, ts) =
    IsText-append w (44 ∷ join (v ∷ vs)) t
      (IsText-ascii 44 (join (v ∷ vs)) refl (IsText-join v vs tv ts))

pub split_top_level-join :
    (w : Bytes) (ws : List Bytes)
    → IsClosed w
    → AllClosed ws
    → IsText w
    → All IsText ws
    → split_top_level (join (w ∷ ws)) ≡ w ∷ ws
unfolding split_top_level
split_top_level-join w ws c cs t ts =
    ap (split_from (outside 0) []) (rune_text-IsText (join (w ∷ ws)) (IsText-join w ws t ts))
    ∙ split_from-join w ws c cs

-- The joined items end where the list's own parenthesis closes.
pub find_from-join :
    (ws : List Bytes) (i : ℕ) (rest : Bytes)
    → AllClosed ws
    → find_from (outside 1) i (join ws ++ 41 ∷ rest) ≡ some (i + length (join ws))
unfolding join
find_from-join [] i rest cs = closing i rest ∙ ap some (omega arith)
  where
    closing : (i : ℕ) (rest : Bytes) → find_from (outside 1) i (41 ∷ rest) ≡ some i
    closing i rest = unfold find_from paren_step in refl
find_from-join (w ∷ []) i rest (c, cs) =
    find_from-append w (outside 0) (outside 0) i (41 ∷ rest) c ∙ closing (i + length w) rest
  where
    closing : (i : ℕ) (rest : Bytes) → find_from (outside 1) i (41 ∷ rest) ≡ some i
    closing i rest = unfold find_from paren_step in refl
find_from-join (w ∷ v ∷ vs) i rest (c, cs) =
    ap (find_from (outside 1) i) (append_assoc w (44 ∷ join (v ∷ vs)) (41 ∷ rest))
    ∙ find_from-append w (outside 0) (outside 0) i (44 ∷ join (v ∷ vs) ++ 41 ∷ rest) c
    ∙ comma (i + length w) (join (v ∷ vs) ++ 41 ∷ rest)
    ∙ find_from-join (v ∷ vs) (suc (i + length w)) rest cs
    ∙ ap some (omega (arith, length-append w (44 ∷ join (v ∷ vs))))
  where
    comma :
        (i : ℕ) (rest : Bytes)
        → find_from (outside 1) i (44 ∷ rest) ≡ find_from (outside 1) (suc i) rest
    comma i rest = unfold find_from paren_step in refl
