-- ===== src/Gvas/Reader/Good.antt =====
-- Every primitive keeps the reader inside its data, never moves it back, and fails only with an
-- error of the program.
use pal_panel_host_wine.Prelude.{
  ℕ, zero, suc, ◌+◌, ◌≤◌, ◌≡◌, refl, ap, ◌∙◌, Bool, true, false, Bytes, [], length, if◌then◌else◌,
  arith,
}
use pal_panel_host_wine.Prelude.Int.{ℤ, pos, negsuc, negate_i32}
use pal_panel_host_wine.Gvas.Value.{Value, Error, IsProper}
use pal_panel_host_wine.Gvas.Reader.{
  Result, ok, err, Reader, M, pure, fail, continue, ◌>>=◌, read, at_eof, get_remaining, skip, byte,
  bool, u16, u32, i32, u64, i64, float, double_float, fstring, fstring_body, utf16_string, guid,
  optional_guid, repeat, tarray,
}

-- A success has read at least `k` bytes, and none past the end.
abbrev pub Outcome {ℓ} : {A : Type ℓ} → ℕ → Reader → Result (A × Reader) → Type 0
Outcome k r (ok (a, r')) = (r'.bytes ≡ r.bytes) × (r.pos + k ≤ r'.pos) × (r'.pos ≤ length r'.bytes)
Outcome k r (err e) = IsProper e

-- `m` behaves so from every reader with at most `n` bytes left.
pub record Good {ℓ} {A : Type ℓ} (n k : ℕ) (m : M A) : Type ℓ where
  pub at : (r : Reader) → r.pos ≤ length r.bytes → length r.bytes ≤ n + r.pos → Outcome k r (m r)

module _ {ℓ} {A : Type ℓ} where
  pub Good-pure : {n : ℕ} (a : A) → Good n 0 (pure a)
  unfolding pure
  Good-pure a = record { at = λ r h b. (refl, omega arith, h) }

  pub Good-fail : {n k : ℕ} (e : Error) → IsProper e → Good {A = A} n k (fail e)
  unfolding fail
  Good-fail e p = record { at = λ r h b. p }

  Outcome-weaken : (r : Reader) (x : Result (A × Reader)) → Outcome 1 r x → Outcome 0 r x
  Outcome-weaken r (ok (a, r')) (e, p, q) = (e, omega arith, q)
  Outcome-weaken r (err e) p = p

  pub Good-weaken : {n : ℕ} {m : M A} → Good n 1 m → Good n 0 m
  Good-weaken {m = m} g = record { at = λ r h b. Outcome-weaken r (m r) (g.at r h b) }

  pub Good-if :
      {n k : ℕ} (t : Bool) {m m' : M A} → Good n k m → Good n k m' → Good n k (if t then m else m')
  Good-if true g g' = g
  Good-if false g g' = g'

module _ {ℓ κ} {A : Type ℓ} {B : Type κ} where
  -- What follows a step that has read `j` bytes has at most `n` left of `n + j`.
  Outcome-continue :
      (n j k : ℕ) (r : Reader) (x : Result (A × Reader)) (f : A → M B)
      → length r.bytes ≤ n + j + r.pos
      → Outcome j r x
      → ((a : A) → Good n k (f a))
      → Outcome (j + k) r (continue x f)
  unfolding continue
  Outcome-continue n j k r (ok (a, r')) f b (same, moved, within) good =
      let g : Outcome k r' (f a r') = (good a).at r' within (omega (arith, ap_length same)) in
      step (f a r') g
    where
      ap_length : r'.bytes ≡ r.bytes → length r'.bytes ≡ length r.bytes
      ap_length e i = length (e i)

      step : (y : Result (B × Reader)) → Outcome k r' y → Outcome (j + k) r y
      step (ok (c, r'')) (e, p, q) = (e ∙ same, omega arith, q)
      step (err e) p = p
  Outcome-continue n j k r (err e) f b p good = p

  pub Good-bind :
      {n : ℕ} (m : M A) (f : A → M B) → Good n 0 m → ((a : A) → Good n 0 (f a)) → Good n 0 (m >>= f)
  unfolding ◌>>=◌
  Good-bind {n} m f g good = record {
    at = λ r h b. Outcome-continue n 0 0 r (m r) f (omega arith) (g.at r h b) good;
  }

  pub Good-bind_eats :
      {n : ℕ} (m : M A) (f : A → M B) → Good n 1 m → ((a : A) → Good n 0 (f a)) → Good n 1 (m >>= f)
  unfolding ◌>>=◌
  Good-bind_eats {n} m f g good = record {
    at = λ r h b. Outcome-continue n 1 0 r (m r) f (omega arith) (g.at r h b) good;
  }

  pub Good-then :
      {n : ℕ} (m : M A) (f : A → M B) → Good n 1 m → ((a : A) → Good n 0 (f a)) → Good n 0 (m >>= f)
  Good-then m f g good = Good-weaken (Good-bind_eats m f g good)

  pub Good-before :
      {n : ℕ} (m : M A) (f : A → M B) → Good n 0 m → ((a : A) → Good n 1 (f a)) → Good n 1 (m >>= f)
  unfolding ◌>>=◌
  Good-before {n} m f g good = record {
    at = λ r h b. Outcome-continue n 0 1 r (m r) f (omega arith) (g.at r h b) good;
  }

  Outcome-stuck :
      (r : Reader) (x : Result (A × Reader)) (f : A → M B)
      → length r.bytes ≤ r.pos
      → Outcome 1 r x
      → Outcome 1 r (continue x f)
  unfolding continue
  Outcome-stuck r (ok (a, r')) f b (same, moved, within) =
      absurd (omega (arith, ap (λ (l : Bytes). length l) same))
  Outcome-stuck r (err e) f b p = p

  -- With no byte left a step that reads fails, whatever follows.
  pub Good-bind_stuck : (m : M A) (f : A → M B) → Good 0 1 m → Good 0 1 (m >>= f)
  unfolding ◌>>=◌
  Good-bind_stuck m f g = record {
    at = λ r h b. Outcome-stuck r (m r) f (omega arith) (g.at r h b);
  }

  -- A step that reads leaves fewer bytes to the rest: the measure of the recursion.
  pub Good-bind_less :
      {n : ℕ} (m : M A) (f : A → M B)
      → Good (suc n) 1 m
      → ((a : A) → Good n 0 (f a))
      → Good (suc n) 1 (m >>= f)
  unfolding ◌>>=◌
  Good-bind_less {n} m f g good = record {
    at = λ r h b. Outcome-continue n 1 0 r (m r) f (omega arith) (g.at r h b) good;
  }

read_pos-Good : {n : ℕ} (k : ℕ) → Good n k (read (pos k))
unfolding read
read_pos-Good k = record { at = λ r h b. ground arith }

pub read-Good : {n : ℕ} (i : ℤ) → Good n 0 (read i)
unfolding read
read-Good (pos k) = record { at = λ r h b. ground arith }
read-Good (negsuc k) = record { at = λ r h b. tt }

pub read_some-Good : {n : ℕ} (k : ℕ) → Good n 1 (read (pos (suc k)))
unfolding read
read_some-Good k = record { at = λ r h b. ground arith }

pub at_eof-Good : {n : ℕ} → Good n 0 at_eof
unfolding at_eof
at_eof-Good = record { at = λ r h b. (refl, omega arith, h) }

pub get_remaining-Good : {n : ℕ} → Good n 0 get_remaining
unfolding get_remaining
get_remaining-Good = record { at = λ r h b. (refl, omega arith, h) }

pub ruleset base_rules = (Good-pure, Good-fail, Good-if, Good-bind, Good-then)

-- A block that begins by reading a positive number of bytes.
word-Good {ℓ} :
    {A : Type ℓ} {n : ℕ} (k : ℕ) (f : Bytes → A) → Good n 1 (read (pos (suc k)) >>= λ b. pure (f b))
word-Good k f = Good-bind_eats _ _ (read_some-Good k) λ b. Good-pure (f b)

pub byte-Good : {n : ℕ} → Good n 1 byte
unfolding byte
byte-Good = word-Good 0 _

pub bool-Good : {n : ℕ} → Good n 1 bool
unfolding bool
bool-Good = Good-bind_eats _ _ byte-Good λ b. Good-pure _

pub u16-Good : {n : ℕ} → Good n 1 u16
unfolding u16
u16-Good = word-Good 1 _

pub u32-Good : {n : ℕ} → Good n 1 u32
unfolding u32
u32-Good = word-Good 3 _

pub i32-Good : {n : ℕ} → Good n 1 i32
unfolding i32
i32-Good = word-Good 3 _

pub u64-Good : {n : ℕ} → Good n 1 u64
unfolding u64
u64-Good = word-Good 7 _

pub i64-Good : {n : ℕ} → Good n 1 i64
unfolding i64
i64-Good = word-Good 7 _

pub float-Good : {n : ℕ} → Good n 1 float
unfolding float
float-Good = word-Good 3 _

pub double_float-Good : {n : ℕ} → Good n 1 double_float
unfolding double_float
double_float-Good = word-Good 7 _

pub guid-Good : {n : ℕ} → Good n 1 guid
unfolding guid
guid-Good = word-Good 15 _

pub skip-Good : {n : ℕ} (i : ℤ) → Good n 0 (skip i)
unfolding skip
skip-Good i = Good-bind _ _ (read-Good i) λ _. Good-pure tt

utf16_string-Good : {n : ℕ} (i : ℤ) → Good n 0 (utf16_string i)
unfolding utf16_string
utf16_string-Good i = search (base_rules, read-Good)

fstring_body-Good : {n : ℕ} (i : ℤ) → Good n 0 (fstring_body i)
unfolding fstring_body
fstring_body-Good (pos zero) = Good-pure []
fstring_body-Good (pos (suc k)) = search (base_rules, read-Good)
fstring_body-Good (negsuc k) = utf16_string-Good (negate_i32 k)

pub fstring-Good : {n : ℕ} → Good n 1 fstring
unfolding fstring
fstring-Good = Good-bind_eats _ _ i32-Good fstring_body-Good

pub optional_guid-Good : {n : ℕ} → Good n 1 optional_guid
unfolding optional_guid
optional_guid-Good = Good-bind_eats _ _ byte-Good λ b. search (base_rules, guid-Good)

pub repeat-Good {ℓ} :
    {A : Type ℓ} {n : ℕ} {m : M A} (count : ℕ) → Good n 0 m → Good n 0 (repeat count m)
unfolding repeat
repeat-Good zero g = Good-pure []
repeat-Good (suc count) g =
    Good-bind _ _ g λ v. Good-bind _ _ (repeat-Good count g) λ vs. Good-pure _

pub repeat_eats-Good {ℓ} :
    {A : Type ℓ} {n : ℕ} {m : M A} (count : ℕ) → Good n 1 m → Good n 0 (repeat count m)
repeat_eats-Good count g = repeat-Good count (Good-weaken g)

pub tarray-Good : {n : ℕ} {m : M Value} → Good n 0 m → Good n 1 (tarray m)
unfolding tarray
tarray-Good g = Good-bind_eats _ _ u32-Good λ count. search (base_rules, repeat-Good)

pub ruleset good_rules = (
  base_rules, read-Good, read_some-Good, at_eof-Good, get_remaining-Good, byte-Good, bool-Good,
  u16-Good, u32-Good, i32-Good, u64-Good, i64-Good, float-Good, double_float-Good, guid-Good,
  skip-Good, fstring-Good, optional_guid-Good, repeat-Good, repeat_eats-Good, tarray-Good,
)
