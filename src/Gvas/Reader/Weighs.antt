-- ===== src/Gvas/Reader/Weighs.antt =====
-- Two more rules on what an action returns: a property of each result, and a weight of the result
-- that the bytes read make up for.
use pal_panel_host_wine.Prelude.{
  ℕ, zero, suc, ◌+◌, ◌≤◌, ◌≡◌, ◌∙◌, ap, Bool, true, false, List, [], ◌∷◌, Bytes, length,
  if◌then◌else◌, arith,
}
use pal_panel_host_wine.Gvas.Value.{Error}
use pal_panel_host_wine.Gvas.Reader.{
  Result, ok, err, Reader, M, pure, fail, continue, ◌>>=◌, repeat,
}
use pal_panel_host_wine.Gvas.Reader.Good.{Outcome, Good}

abbrev pub Post {ℓ} : {A : Type ℓ} → (A → Type 0) → Result (A × Reader) → Type 0
Post Q (ok (a, r)) = Q a
Post Q (err e) = Unit

-- Every result of `m` has `Q`.
pub record Returns {ℓ} {A : Type ℓ} (Q : A → Type 0) (m : M A) : Type ℓ where
  pub at : (r : Reader) → Post Q (m r)

module _ {ℓ} {A : Type ℓ} {Q : A → Type 0} where
  pub Returns-pure : (a : A) → Q a → Returns Q (pure a)
  unfolding pure
  Returns-pure a q = record { at = λ r. q }

  pub Returns-fail : (e : Error) → Returns Q (fail e)
  unfolding fail
  Returns-fail e = record { at = λ r. tt }

  pub Returns-if :
      (t : Bool) {m m' : M A} → Returns Q m → Returns Q m' → Returns Q (if t then m else m')
  Returns-if true g g' = g
  Returns-if false g g' = g'

module _ {ℓ κ} {A : Type ℓ} {B : Type κ} {Q : B → Type 0} where
  Post-continue :
      (x : Result (A × Reader)) (f : A → M B) → ((a : A) → Returns Q (f a)) → Post Q (continue x f)
  unfolding continue
  Post-continue (ok (a, r)) f g = (g a).at r
  Post-continue (err e) f g = tt

  pub Returns-bind : (m : M A) (f : A → M B) → ((a : A) → Returns Q (f a)) → Returns Q (m >>= f)
  unfolding ◌>>=◌
  Returns-bind m f g = record { at = λ r. Post-continue (m r) f g }

  Post-continue_from :
      {P : A → Type 0} (x : Result (A × Reader)) (f : A → M B)
      → Post P x
      → ((a : A) → P a → Returns Q (f a))
      → Post Q (continue x f)
  unfolding continue
  Post-continue_from (ok (a, r)) f p g = (g a p).at r
  Post-continue_from (err e) f p g = tt

  pub Returns-bind_from :
      {P : A → Type 0} (m : M A) (f : A → M B)
      → Returns P m
      → ((a : A) → P a → Returns Q (f a))
      → Returns Q (m >>= f)
  unfolding ◌>>=◌
  Returns-bind_from m f p g = record { at = λ r. Post-continue_from (m r) f (p.at r) g }

pub ruleset returns_rules = (Returns-pure, Returns-fail, Returns-if, Returns-bind)

abbrev pub Paid {ℓ} : {A : Type ℓ} → (A → ℕ) → Reader → Result (A × Reader) → Type 0
Paid w r (ok (a, r')) = r.pos + w a ≤ r'.pos
Paid w r (err e) = Unit

-- From a reader with at most `n` bytes left, `m` reads at least the weight of its result.
pub record Weighs {ℓ} {A : Type ℓ} (n : ℕ) (w : A → ℕ) (m : M A) : Type ℓ where
  pub at : (r : Reader) → r.pos ≤ length r.bytes → length r.bytes ≤ n + r.pos → Paid w r (m r)

Paid-light {ℓ} :
    {A : Type ℓ} (w : A → ℕ) (r : Reader) (x : Result (A × Reader))
    → Outcome 0 r x
    → Post (λ a. w a ≡ 0) x
    → Paid w r x
Paid-light w r (ok (a, r')) o p = omega arith
Paid-light w r (err e) o p = tt

module _ {ℓ} {A : Type ℓ} {n : ℕ} {w : A → ℕ} where
  pub Weighs-fail : (e : Error) → Weighs n w (fail e)
  unfolding fail
  Weighs-fail e = record { at = λ r h b. tt }

  pub Weighs-if :
      (t : Bool) {m m' : M A} → Weighs n w m → Weighs n w m' → Weighs n w (if t then m else m')
  Weighs-if true g g' = g
  Weighs-if false g g' = g'

  -- A result of no weight.
  pub Weighs-light : (m : M A) → Good n 0 m → Returns (λ a. w a ≡ 0) m → Weighs n w m
  Weighs-light m g p = record { at = λ r h b. Paid-light w r (m r) (g.at r h b) (p.at r) }

Paid-map {ℓ κ} :
    {A : Type ℓ} {B : Type κ} (v : A → ℕ) (w : B → ℕ) (r : Reader) (x : Result (A × Reader))
    (g : A → B)
    → Paid v r x
    → ((a : A) → w (g a) ≤ v a)
    → Paid w r (continue x (λ a. pure (g a)))
unfolding continue pure
Paid-map v w r (ok (a, r')) g p h = omega (arith, h a)
Paid-map v w r (err e) g p h = tt

module _ {ℓ κ} {A : Type ℓ} {B : Type κ} {n : ℕ} {w : B → ℕ} where
  Paid-continue :
      (r : Reader) (x : Result (A × Reader)) (f : A → M B)
      → length r.bytes ≤ n + r.pos
      → Outcome 0 r x
      → ((a : A) → Weighs n w (f a))
      → Paid w r (continue x f)
  unfolding continue
  Paid-continue r (ok (a, r')) f b (same, moved, within) g =
      let bound : length r'.bytes ≤ n + r'.pos = omega (arith, ap (λ (l : Bytes). length l) same) in
      later (f a r') ((g a).at r' within bound)
    where
      later : (y : Result (B × Reader)) → Paid w r' y → Paid w r y
      later (ok (c, r'')) p = omega arith
      later (err e) p = tt
  Paid-continue r (err e) f b o g = tt

  pub Weighs-bind :
      (m : M A) (f : A → M B) → Good n 0 m → ((a : A) → Weighs n w (f a)) → Weighs n w (m >>= f)
  unfolding ◌>>=◌
  Weighs-bind m f g h = record { at = λ r v b. Paid-continue r (m r) f b (g.at r v b) h }

  pub Weighs-map :
      {v : A → ℕ} (m : M A) (g : A → B)
      → Weighs n v m
      → ((a : A) → w (g a) ≤ v a)
      → Weighs n w (m >>= λ a. pure (g a))
  unfolding ◌>>=◌
  Weighs-map {v} m g p h = record { at = λ r within b. Paid-map v w r (m r) g (p.at r within b) h }

module _ {ℓ κ} {A : Type ℓ} {B : Type κ} {n : ℕ} where
  Outcome-paid :
      (v : A → ℕ) (r : Reader) (x : Result (A × Reader)) (f : A → M B)
      → length r.bytes ≤ n + r.pos
      → Outcome 1 r x
      → Paid v r x
      → ((a : A) → v a ≤ n → Good n 0 (f a))
      → Outcome 1 r (continue x f)
  unfolding continue
  Outcome-paid v r (ok (a, r')) f b (same, moved, within) p g =
      let lengths = ap (λ (l : Bytes). length l) same in
      let bound : length r'.bytes ≤ n + r'.pos = omega arith in
      let light : v a ≤ n = omega arith in later (f a r') ((g a light).at r' within bound)
    where
      later : (y : Result (B × Reader)) → Outcome 0 r' y → Outcome 1 r y
      later (ok (c, r'')) (e, q, q') = (e ∙ same, omega arith, q')
      later (err e) q = q
  Outcome-paid v r (err e) f b o p g = o

  -- The rest may use that the weight of the result is within what was left.
  pub Good-bind_paid :
      {v : A → ℕ} (m : M A) (f : A → M B)
      → Good n 1 m
      → Weighs n v m
      → ((a : A) → v a ≤ n → Good n 0 (f a))
      → Good n 1 (m >>= f)
  unfolding ◌>>=◌
  Good-bind_paid {v} m f g p h = record {
    at = λ r i b. Outcome-paid v r (m r) f b (g.at r i b) (p.at r i b) h;
  }

-- As many rounds, as many bytes.
module _ {ℓ} {A : Type ℓ} {n : ℕ} {m : M A} (g : Good n 1 m) where
  Paid-round :
      (count : ℕ) (r : Reader) (x : Result (A × Reader))
      → length r.bytes ≤ n + r.pos
      → Outcome 1 r x
      → Weighs n length (repeat count m)
      → Paid length r (continue x (λ v. repeat count m >>= λ vs. pure (v ∷ vs)))
  unfolding continue ◌>>=◌ pure
  Paid-round count r (ok (a, r')) b (same, moved, within) ih =
      let bound : length r'.bytes ≤ n + r'.pos = omega (arith, ap (λ (l : Bytes). length l) same) in
      later (repeat count m r') (ih.at r' within bound)
    where
      later :
          (y : Result (List A × Reader))
          → Paid length r' y
          → Paid length r (continue y (λ vs. pure (a ∷ vs)))
      later (ok (c, r'')) p = omega arith
      later (err e) p = tt
  Paid-round count r (err e) b o ih = tt

  Weighs-round :
      (count : ℕ)
      → Weighs n length (repeat count m)
      → Weighs n length (m >>= λ v. repeat count m >>= λ vs. pure (v ∷ vs))
  unfolding ◌>>=◌
  Weighs-round count w = record { at = λ r h b. Paid-round count r (m r) b (g.at r h b) w }

  Weighs-none : Weighs n (length {A = A}) (pure [])
  unfolding pure
  Weighs-none = record { at = λ r h b. omega arith }

  pub repeat-Weighs : (count : ℕ) → Weighs n length (repeat count m)
  unfolding repeat
  repeat-Weighs zero = Weighs-none
  repeat-Weighs (suc count) = Weighs-round count (repeat-Weighs count)
