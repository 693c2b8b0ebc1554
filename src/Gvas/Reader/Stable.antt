-- ===== src/Gvas/Reader/Stable.antt =====
-- Reads that succeed do not depend on the bytes behind what they read.
use mathlib.Core.Path.{ap₂}
use pal_panel_host_wine.Prelude.{
  ℕ, zero, suc, ◌+◌, ◌≤◌, ◌≡◌, refl, ap, ◌∙◌, Bool, true, false, List, [], ◌∷◌, ◌++◌, Bytes, length,
  take, drop, length-append, length-drop, ltb, ltb-false, ltb_false→le, Bool-cases, inl, inr,
  if◌then◌else◌, arith,
}
use pal_panel_host_wine.Prelude.Int.{ℤ, pos, negsuc, negate_i32}
use pal_panel_host_wine.Gvas.Value.{Value, Error}
use pal_panel_host_wine.Gvas.Reader.{
  Result, ok, err, Reader, M, pure, fail, continue, ◌>>=◌, read, skip, byte, u32, i32, i64,
  double_float, utf16_string, fstring_body, fstring, guid, repeat, tarray,
}

abbrev pub extend : Reader → Bytes → Reader
extend r more = record { bytes = r.bytes ++ more; pos = r.pos }

pub record Stable {ℓ} {A : Type ℓ} (m : M A) : Type ℓ where
  pub at :
      (r : Reader) (more : Bytes) (a : A) (r' : Reader)
      → m r ≡ ok (a, r')
      → m (extend r more) ≡ ok (a, extend r' more)

drop-append_le {ℓ} :
    {A : Type ℓ} (n : ℕ) (xs ys : List A) → n ≤ length xs → drop n (xs ++ ys) ≡ drop n xs ++ ys
drop-append_le zero xs ys h = refl
drop-append_le (suc n) [] ys h = absurd (omega arith)
drop-append_le (suc n) (x ∷ xs) ys h = drop-append_le n xs ys (omega arith)

take-append_le {ℓ} :
    {A : Type ℓ} (n : ℕ) (xs ys : List A) → n ≤ length xs → take n (xs ++ ys) ≡ take n xs
take-append_le zero xs ys h = refl
take-append_le (suc n) [] ys h = absurd (omega arith)
take-append_le (suc n) (x ∷ xs) ys h = ap (λ t. x ∷ t) (take-append_le n xs ys (omega arith))

slice-append :
    (p n : ℕ) (xs ys : Bytes) → p + n ≤ length xs → take n (drop p (xs ++ ys)) ≡ take n (drop p xs)
slice-append p n xs ys h =
    ap (λ l. take n l) (drop-append_le p xs ys (omega arith))
    ∙ take-append_le n (drop p xs) ys (omega (arith, length-drop p xs))

ok-injective {ℓ} :
    {A : Type ℓ} {a b : A} {r s : Reader}
    → ◌≡◌ {A = Result (A × Reader)} (ok (a, r)) (ok (b, s))
    → (a ≡ b) × (r ≡ s)
ok-injective e = (cc, cc)

module _ {ℓ} {A : Type ℓ} where
  pub Stable-pure : (a : A) → Stable (pure a)
  unfolding pure
  Stable-pure a = record {
    at = λ r more b r' e. let (p, q) = ok-injective e in ap₂ (λ c s. ok (c, extend s more)) p q;
  }

  pub Stable-fail : (e : Error) → Stable {A = A} (fail e)
  unfolding fail
  Stable-fail x = record { at = λ r more b r' e. cc }

  pub Stable-if : (t : Bool) {m m' : M A} → Stable m → Stable m' → Stable (if t then m else m')
  Stable-if true g g' = g
  Stable-if false g g' = g'

pub refused {ℓ κ} :
    {A : Type ℓ} {x : Error} {a : A} {r : Reader} {P : Type κ}
    → ◌≡◌ {A = Result (A × Reader)} (err x) (ok (a, r))
    → P
refused e = absurd (cc)

pub read-Stable : (i : ℤ) → Stable (read i)
unfolding read
read-Stable (negsuc k) = record { at = λ r more b r' e. cc }
read-Stable (pos k) = record {
  at = λ r more b r' e. elim (Bool-cases (ltb (length r.bytes) (r.pos + k))) [
    | inl short ↦ refused (rw short at e)
    | inr fits ↦
        let within : r.pos + k ≤ length r.bytes = ltb_false→le _ _ fits in
        let (p, q) = ok-injective (rw fits at e) in
        rw
          (ltb-false (length (r.bytes ++ more)) (r.pos + k)
            (omega (arith, length-append r.bytes more)))
          (rw (slice-append r.pos k r.bytes more within) (ap₂ (λ c s. ok (c, extend s more)) p q))
  ];
}

-- A block that returns has returned at its first step.
continue-eq-ok {ℓ κ} :
    {A : Type ℓ} {B : Type κ} (x : Result (A × Reader)) (f : A → M B) {b : B} {s : Reader}
    → continue x f ≡ ok (b, s)
    → (a : A) × (r : Reader) × (x ≡ ok (a, r)) × (f a r ≡ ok (b, s))
unfolding continue
continue-eq-ok (ok (a, r)) f e = (a, r, refl, e)
continue-eq-ok (err x) f e = refused e

module _ {ℓ κ} {A : Type ℓ} {B : Type κ} where
  pub >>=-eq-ok :
      (m : M A) (f : A → M B) (r : Reader) {b : B} {s : Reader}
      → (m >>= f) r ≡ ok (b, s)
      → (a : A) × (r' : Reader) × (m r ≡ ok (a, r')) × (f a r' ≡ ok (b, s))
  unfolding ◌>>=◌
  >>=-eq-ok m f r e = continue-eq-ok (m r) f e

  pub Stable-bind : (m : M A) (f : A → M B) → Stable m → ((a : A) → Stable (f a)) → Stable (m >>= f)
  unfolding ◌>>=◌ continue
  Stable-bind m f g h = record {
    at = λ r more b r' e.
        let (a, s, p, q) = continue-eq-ok (m r) f e in
        ap (λ x. continue x f) (g.at r more a s p) ∙ (h a).at s more b r' q;
  }

pub ruleset stable_base = (Stable-pure, Stable-fail, Stable-if, Stable-bind, read-Stable)

pub skip-Stable : (i : ℤ) → Stable (skip i)
unfolding skip
skip-Stable i = search stable_base

pub byte-Stable : Stable byte
unfolding byte
byte-Stable = search stable_base

pub u32-Stable : Stable u32
unfolding u32
u32-Stable = search stable_base

pub i32-Stable : Stable i32
unfolding i32
i32-Stable = search stable_base

pub i64-Stable : Stable i64
unfolding i64
i64-Stable = search stable_base

pub double_float-Stable : Stable double_float
unfolding double_float
double_float-Stable = search stable_base

pub guid-Stable : Stable guid
unfolding guid
guid-Stable = search stable_base

utf16_string-Stable : (i : ℤ) → Stable (utf16_string i)
unfolding utf16_string
utf16_string-Stable i = search stable_base

fstring_body-Stable : (i : ℤ) → Stable (fstring_body i)
unfolding fstring_body
fstring_body-Stable (pos zero) = Stable-pure []
fstring_body-Stable (pos (suc k)) = search stable_base
fstring_body-Stable (negsuc k) = utf16_string-Stable (negate_i32 k)

pub fstring-Stable : Stable fstring
unfolding fstring
fstring-Stable = Stable-bind _ _ i32-Stable fstring_body-Stable

pub repeat-Stable {ℓ} : {A : Type ℓ} {m : M A} (count : ℕ) → Stable m → Stable (repeat count m)
unfolding repeat
repeat-Stable zero g = Stable-pure []
repeat-Stable (suc count) g =
    Stable-bind _ _ g λ v. Stable-bind _ _ (repeat-Stable count g) λ vs. Stable-pure (v ∷ vs)

pub tarray-Stable : {m : M Value} → Stable m → Stable (tarray m)
unfolding tarray
tarray-Stable g = Stable-bind _ _ u32-Stable λ count. search (stable_base, repeat-Stable)

pub ruleset stable_rules = (
  stable_base, byte-Stable, i32-Stable, i64-Stable, double_float-Stable, guid-Stable,
  fstring-Stable, tarray-Stable,
)
