-- ===== src/Indexer/Nearest.antt =====
-- Which base `nearestBase` finds.
use pal_panel_host_wine.Prelude.{
  ℕ, zero, suc, ◌+◌, ◌<◌, ◌==◌, length, ◌≡◌, refl, sym, ap, ◌∙◌, inl, inr, Bool, true, false, not,
  ◌&&◌, Option, none, some, List, [], ◌∷◌, Bool-cases, for_each_from, arith,
}
use mathlib.Core.Path.{subst}
use pal_panel_host_wine.Indexer.{Coordinates, Base}
use pal_panel_host_wine.Indexer.Objects.{
  Nearest, covers, area_range, distance, best_distance, nearer, position_of, nearest_base,
}
use pal_panel_host_wine.Indexer.Values.{Go}

-- The base at a position.
unfoldable pub base_at : List Base → ℕ → Option Base
base_at [] i = none
base_at (b ∷ bs) zero = some b
base_at (b ∷ bs) (suc i) = base_at bs i

base_at-length : (bs : List Base) (j : ℕ) (x : Base) → base_at bs j ≡ some x → j < length bs
unfolding base_at
base_at-length [] j x h = absurd (cc)
base_at-length (b ∷ bs) zero x h = omega arith
base_at-length (b ∷ bs) (suc j) x h = omega (arith, base_at-length bs j x h)

-- The bases from a position on.
abbrev From : List Base → ℕ → List Base → Type 0
From all i bs = (k : ℕ) → base_at all (i + k) ≡ base_at bs k

From-next :
    (all : List Base) (i : ℕ) (b : Base) (bs : List Base)
    → From all i (b ∷ bs)
    → From all (suc i) bs
unfolding base_at
From-next all i b bs f k = ap (base_at all) (omega arith) ∙ f (suc k)

-- A strict order, as `<` is on floats, NaN included.
pub record IsStrict (lt : ℕ → ℕ → Bool) : Type 0 where
  pub irreflexive : (x : ℕ) → lt x x ≡ false
  pub transitive : (x y z : ℕ) → lt x y ≡ true → lt y z ≡ true → lt x z ≡ true

-- What is not below a bound is not below what is below it.
not_below :
    (lt : ℕ → ℕ → Bool)
    → IsStrict lt
    → (x y z : ℕ) → lt x z ≡ false
    → lt y z ≡ true
    → lt x y ≡ false
not_below lt o x y z h q = elim (Bool-cases (lt x y)) [
  | inl below ↦ let t : lt x z ≡ true = o.transitive x y z below q in absurd (cc)
  | inr above ↦ above
]

module _ (go : Go) (c : Coordinates) (all : List Base) where
  -- Of the bases before `i` that cover the place, none is nearer than `d`.
  abbrev NoneBelow : ℕ → ℕ → Type 0
  NoneBelow i d =
      (j : ℕ) (x : Base)
      → j < i
      → base_at all j ≡ some x
      → covers go c x ≡ true
      → go.float_lt (distance go x c) d ≡ false

  abbrev Found : Nearest → Type 0
  Found none = Unit
  Found (some (p, d)) =
      (b : Base) × (base_at all p ≡ some b) × (covers go c b ≡ true) × (d ≡ distance go b c)

  -- What the loop knows at position `i`.
  record Seen (i : ℕ) (best : Nearest) : Type 0 where
    pub below : NoneBelow i (best_distance go best)
    pub found : Found best

  -- A covering base that is nearer.
  take-Seen :
      (i : ℕ) (b : Base) (best : Nearest)
      → IsStrict go.float_lt
      → base_at all i ≡ some b
      → covers go c b ≡ true
      → go.float_lt (distance go b c) (best_distance go best) ≡ true
      → Seen i best
      → Seen (suc i) (some (i, distance go b c))
  unfolding best_distance
  take-Seen i b best o at_i covered near v = record {
    below = below;
    found = (b, at_i, covered, refl);
  }
    where
      below : NoneBelow (suc i) (distance go b c)
      below j x lt at_j cov = elim (Bool-cases (j == i)) [
        | inl last ↦
            let e : j ≡ i = ground arith in
            let s : some x ≡ some b = sym at_j ∙ ap (base_at all) e ∙ at_i in
            let t : x ≡ b = cc in rw t (o.irreflexive (distance go b c))
        | inr earlier ↦
            not_below go.float_lt o (distance go x c) (distance go b c) (best_distance go best)
              (v.below j x (ground arith) at_j cov) near
      ]

  -- A base that does not cover the place, or is not nearer.
  leave-Seen :
      (i : ℕ) (b : Base) (best : Nearest)
      → base_at all i ≡ some b
      → (covers go c b && go.float_lt (distance go b c) (best_distance go best)) ≡ false
      → Seen i best
      → Seen (suc i) best
  leave-Seen i b best at_i h v = record { below = below; found = v.found }
    where
      below : NoneBelow (suc i) (best_distance go best)
      below j x lt at_j cov = elim (Bool-cases (j == i)) [
        | inl last ↦
            let e : j ≡ i = ground arith in
            let s : some x ≡ some b = sym at_j ∙ ap (base_at all) e ∙ at_i in
            let t : x ≡ b = cc in rw t (second _ _ (rw t at cov) h)
        | inr earlier ↦ v.below j x (ground arith) at_j cov
      ]
        where
          second : (p q : Bool) → p ≡ true → (p && q) ≡ false → q ≡ false
          second p q h k = ground arith

  nearer-Seen :
      (i : ℕ) (b : Base) (best : Nearest)
      → IsStrict go.float_lt
      → base_at all i ≡ some b
      → Seen i best
      → Seen (suc i) (nearer go c i b best)
  unfolding nearer
  nearer-Seen i b best o at_i v =
      elim (Bool-cases (covers go c b && go.float_lt (distance go b c) (best_distance go best))) [
        | inl near ↦ rw near (take-Seen i b best o at_i (left _ _ near) (right _ _ near) v)
        | inr far ↦ rw far (leave-Seen i b best at_i far v)
      ]
    where
      left : (p q : Bool) → (p && q) ≡ true → p ≡ true
      left p q h = ground arith

      right : (p q : Bool) → (p && q) ≡ true → q ≡ true
      right p q h = ground arith

  loop-Seen :
      (i : ℕ) (bs : List Base) (best : Nearest)
      → IsStrict go.float_lt
      → From all i bs
      → Seen i best
      → Seen (i + length bs) (for_each_from i (nearer go c) bs best)
  unfolding for_each_from
  loop-Seen i [] best o f v = subst (λ n. Seen n best) (omega arith) v
  loop-Seen i (b ∷ bs) best o f v =
      let at_i : base_at all i ≡ some b = ap (base_at all) (omega arith) ∙ f 0 ∙ first_at in
      subst (λ n. Seen n (for_each_from (suc i) (nearer go c) bs (nearer go c i b best)))
        (omega arith)
        (loop-Seen (suc i) bs (nearer go c i b best) o (From-next all i b bs f)
          (nearer-Seen i b best o at_i v))
    where
      first_at : base_at (b ∷ bs) 0 ≡ some b
      first_at = unfold base_at in refl

  all-Seen : IsStrict go.float_lt → Seen (0 + length all) (for_each_from 0 (nearer go c) all none)
  all-Seen o =
      loop-Seen 0 all none o (λ k. ap (base_at all) (omega arith))
        (record { below = λ j x lt at_j cov. absurd (omega arith); found = tt })

-- The place lies within the radius of the base, which is above 0.
abbrev pub InArea : Go → Coordinates → Base → Type 0
InArea go c b =
    (go.float_le (area_range go b) 0 ≡ false)
    × (go.float_le (distance go b c) (go.float_mul (area_range go b) (area_range go b)) ≡ true)

covers-InArea : (go : Go) (c : Coordinates) (b : Base) → covers go c b ≡ true → InArea go c b
unfolding covers
covers-InArea go c b h = both (go.float_le (area_range go b) 0) _ h
  where
    both : (p q : Bool) → (not p && q) ≡ true → (p ≡ false) × (q ≡ true)
    both false q h = (refl, h)
    both true q h = absurd (cc)

InArea-covers : (go : Go) (c : Coordinates) (b : Base) → InArea go c b → covers go c b ≡ true
unfolding covers
InArea-covers go c b (p, q) = rw p q

-- The place is in the area of the base at the position, and no base in whose area it is is nearer.
abbrev pub IsNearest : Go → Coordinates → List Base → ℕ → Type 0
IsNearest go c bases i =
    (b : Base) × (base_at bases i ≡ some b)
    × InArea go c b
    × ((j : ℕ) (x : Base)
        → base_at bases j ≡ some x
        → InArea go c x
        → go.float_lt (distance go x c) (distance go b c) ≡ false)

-- If `<` on the floats is irreflexive and transitive and `nearestBase` finds a position, then the
-- base there covers the place within its area's radius, and no base that covers it is nearer.
pub nearest_base-IsNearest :
    (go : Go) (bases : List Base) (c : Coordinates) (i : ℕ)
    → IsStrict go.float_lt
    → nearest_base go bases c ≡ some i
    → IsNearest go c bases i
unfolding nearest_base
nearest_base-IsNearest go bases c i o h =
    by_best (for_each_from 0 (nearer go c) bases none) (all-Seen go c bases o) h
  where
    by_best :
        (best : Nearest)
        → Seen go c bases (0 + length bases) best
        → position_of best ≡ some i
        → IsNearest go c bases i
    by_best none v h = absurd (nothing h)
      where
        nothing : position_of none ≡ some i → ⊥
        nothing h = unfold position_of in cc
    by_best (some (p, d)) v h =
        let e : p ≡ i = same h in
        let (b, at_p, covered, at_distance) = v.found in
        (
          b,
          rw (sym e) at_p,
          covers-InArea go c b covered,
          λ j x at_j area. lower at_distance (
              v.below j x (omega (arith, base_at-length bases j x at_j)) at_j
                (InArea-covers go c x area)),
        )
      where
        same : position_of (some (p, d)) ≡ some i → p ≡ i
        same h = unfold position_of in cc

        lower :
            {a e : ℕ}
            → d ≡ e
            → go.float_lt a (best_distance go (some (p, d))) ≡ false
            → go.float_lt a e ≡ false
        lower h k = (unfold best_distance in rw (sym h) k)
