-- ===== src/Gvas/Reader/Encode.antt =====
-- A writer of the reader's format, and what the reader makes of its output.
use mathlib.Core.List.{append_assoc, append-nil}
use mathlib.Core.Path.{ap₂, subst, subst₂}
use pal_panel_host_wine.Prelude.{
  ℕ, zero, suc, ◌+◌, ◌-◌, ◌*◌, ◌/◌, ◌%◌, ◌^◌, ◌<◌, ◌≡◌, refl, sym, ap, ◌∙◌, List, [], ◌∷◌, ◌++◌,
  map, Bytes, length, take-append, drop-append, length-append, ltb-false, arith,
}
use pal_panel_host_wine.Prelude.Int.{ℤ, pos, negsuc, signed32, pattern32}
use pal_panel_host_wine.Gvas.Reader.{
  ok, Reader, M, pure, continue, ◌>>=◌, read, le_value, byte, first_byte, u16, u32, i32, u64,
  fstring, fstring_body, ascii_text, format_guid, guid, repeat,
}

-- A reader between what it has read and what it has not.
abbrev pub between : Bytes → Bytes → Reader
between before after = record { bytes = before ++ after; pos = length before }

-- Wherever `x` stands in the data, `m` reads exactly `x` and returns `a`.
pub record Decodes {ℓ} {A : Type ℓ} (m : M A) (x : Bytes) (a : A) : Type ℓ where
  pub at :
      (before rest : Bytes) → m (between before (x ++ rest)) ≡ ok (a, between (before ++ x) rest)

shift :
    (before x rest : Bytes)
    → between before (x ++ rest) ≡ record { bytes = (before ++ x) ++ rest; pos = length before }
shift before x rest =
    ap (λ b. record { bytes = b; pos = length before }) (sym (append_assoc before x rest))

module _ {ℓ} {A : Type ℓ} where
  pub Decodes-pure : (a : A) → Decodes (pure a) [] a
  unfolding pure
  Decodes-pure a = record {
    at = λ before rest. ap (λ b. ok (a, between b rest)) (sym (append-nil before));
  }

module _ {ℓ κ} {A : Type ℓ} {B : Type κ} where
  pub Decodes-bind :
      {m : M A} (f : A → M B) {x y : Bytes} {a : A} {b : B}
      → Decodes m x a
      → Decodes (f a) y b
      → Decodes (m >>= f) (x ++ y) b
  unfolding ◌>>=◌ continue
  Decodes-bind {m} f {x} {y} {a} {b} g h = record {
    at = λ before rest. rw (append_assoc x y rest) (
        ap (λ r. continue r f) (g.at before (y ++ rest))
        ∙ h.at (before ++ x) rest
        ∙ ap (λ s. ok (b, between s rest)) (append_assoc before x y));
  }

-- A chain's last step.
pub Decodes-last {ℓ κ} :
    {A : Type ℓ} {B : Type κ} {m : M A} (g : A → B) {x : Bytes} {a : A}
    → Decodes m x a
    → Decodes (m >>= λ v. pure (g v)) x (g a)
Decodes-last {m} g {x} {a} d =
    subst (λ y. Decodes (m >>= λ v. pure (g v)) y (g a)) (append-nil x)
      (Decodes-bind _ d (Decodes-pure (g a)))

pub read-Decodes : (x : Bytes) → Decodes (read (pos (length x))) x x
unfolding read
read-Decodes x = record {
  at = λ before rest.
      rw
        (ltb-false (length (before ++ (x ++ rest))) (length before + length x)
          (omega (arith, length-append before (x ++ rest), length-append x rest)))
        (rw (drop-append before (x ++ rest)) (
          rw (take-append x rest) (
            ap₂ (λ b p. ok (x, record { bytes = b; pos = p })) (sym (append_assoc before x rest))
              (sym (length-append before x)))));
}

-- `w` bytes of a number, the lowest first.
unfoldable pub encode_le : ℕ → ℕ → Bytes
encode_le zero n = []
encode_le (suc w) n = (n % 256) ∷ encode_le w (n / 256)

pub length-encode_le : (w n : ℕ) → length (encode_le w n) ≡ w
unfolding encode_le
length-encode_le zero n = refl
length-encode_le (suc w) n = ap suc (length-encode_le w (n / 256))

abbrev pub le_power : ℕ → ℕ
le_power zero = 1
le_power (suc w) = 256 * le_power w

pub le_value-encode_le : (w n : ℕ) → n < le_power w → le_value (encode_le w n) ≡ n
unfolding encode_le
le_value-encode_le zero n h = omega arith
le_value-encode_le (suc w) n h = omega (arith, le_value-encode_le w (n / 256) (omega arith))

read_le-Decodes : (w n : ℕ) → Decodes (read (pos w)) (encode_le w n) (encode_le w n)
read_le-Decodes w n =
    subst (λ k. Decodes (read (pos k)) (encode_le w n) (encode_le w n)) (length-encode_le w n)
      (read-Decodes (encode_le w n))

-- A block that reads `w` bytes and returns a function of them.
word-Decodes {ℓ} :
    {A : Type ℓ} (w n : ℕ) (f : Bytes → A) {a : A}
    → f (encode_le w n) ≡ a
    → Decodes (read (pos w) >>= λ b. pure (f b)) (encode_le w n) a
word-Decodes w n f {a} e =
    subst₂ (λ x c. Decodes (read (pos w) >>= λ b. pure (f b)) x c) (append-nil (encode_le w n)) e
      (Decodes-bind (λ b. pure (f b)) (read_le-Decodes w n) (Decodes-pure (f (encode_le w n))))

pub byte-Decodes : (b : ℕ) → b < 256 → Decodes byte (b ∷ []) b
unfolding byte first_byte encode_le
byte-Decodes b h = rw_byte (word-Decodes 1 b first_byte (omega arith))
  where
    rw_byte :
        Decodes (read (pos 1) >>= λ b. pure (first_byte b)) ((b % 256) ∷ []) b
        → Decodes (read (pos 1) >>= λ b. pure (first_byte b)) (b ∷ []) b
    rw_byte d =
        let e : b % 256 ≡ b = omega arith in
        subst (λ k. Decodes (read (pos 1) >>= λ b. pure (first_byte b)) (k ∷ []) b) e d

pub u16-Decodes : (n : ℕ) → n < 2 ^ 16 → Decodes u16 (encode_le 2 n) n
unfolding u16
u16-Decodes n h = word-Decodes 2 n le_value (le_value-encode_le 2 n h)

pub u32-Decodes : (n : ℕ) → n < 2 ^ 32 → Decodes u32 (encode_le 4 n) n
unfolding u32
u32-Decodes n h = word-Decodes 4 n le_value (le_value-encode_le 4 n h)

pub u64-Decodes : (n : ℕ) → n < 2 ^ 64 → Decodes u64 (encode_le 8 n) n
unfolding u64
u64-Decodes n h = word-Decodes 8 n le_value (le_value-encode_le 8 n h)

-- The range of an int32.
abbrev pub IsI32 : ℤ → Type 0
IsI32 (pos n) = n < 2 ^ 31
IsI32 (negsuc n) = n < 2 ^ 31

unfoldable pub encode_i32 : ℤ → Bytes
encode_i32 z = encode_le 4 (pattern32 z)

pub pattern32_lt : (z : ℤ) → IsI32 z → pattern32 z < 2 ^ 32
pattern32_lt (pos n) h = omega arith
pattern32_lt (negsuc n) h = omega arith

pub signed32-pattern32 : (z : ℤ) → IsI32 z → signed32 (pattern32 z) ≡ z
signed32-pattern32 (pos n) h = ground arith
signed32-pattern32 (negsuc n) h = ground arith

-- Every number in the range of an int32 is read back from its four bytes, wherever they stand in
-- the data, and exactly these are read.
pub i32-Decodes : (z : ℤ) → IsI32 z → Decodes i32 (encode_i32 z) z
unfolding i32 encode_i32
i32-Decodes z h =
    word-Decodes 4 (pattern32 z) (λ b. signed32 (le_value b))
      (ap signed32 (le_value-encode_le 4 (pattern32 z) (pattern32_lt z h)) ∙ signed32-pattern32 z h)

-- The Go string of bytes `s` as an FString: the length with a closing 0, or 0 alone.
unfoldable pub encode_fstring : Bytes → Bytes
encode_fstring [] = encode_i32 (pos 0)
encode_fstring (c ∷ s) = encode_i32 (pos (suc (suc (length s)))) ++ ((c ∷ s) ++ 0 ∷ [])

ascii_text-append : (s : Bytes) → ascii_text (s ++ 0 ∷ []) ≡ s
unfolding ascii_text
ascii_text-append s = rw (length-append s (0 ∷ [])) (
    let e : (length s + 1) - 1 ≡ length s = omega arith in
    rw e (rw (take-append s (0 ∷ [])) (ground arith)))

-- The longest text that the reader takes, without its closing 0.
abbrev pub FitsFstring : Bytes → Type 0
FitsFstring s = length s < 16777216

fstring_body-Decodes :
    (c : ℕ) (s : Bytes)
    → FitsFstring (c ∷ s)
    → Decodes (fstring_body (pos (suc (suc (length s))))) ((c ∷ s) ++ 0 ∷ []) (c ∷ s)
unfolding fstring_body
fstring_body-Decodes c s h = rw (ltb-false 16777216 (suc (suc (length s))) (omega arith)) (
    subst₂ (λ k x. Decodes (read (pos k) >>= λ b. pure (ascii_text b)) x (c ∷ s)) size
      (append-nil ((c ∷ s) ++ 0 ∷ []))
      (Decodes-bind (λ b. pure (ascii_text b)) (read-Decodes ((c ∷ s) ++ 0 ∷ []))
        (subst (λ t. Decodes (pure (ascii_text ((c ∷ s) ++ 0 ∷ []))) [] t)
          (ascii_text-append (c ∷ s)) (Decodes-pure (ascii_text ((c ∷ s) ++ 0 ∷ []))))))
  where
    size : length ((c ∷ s) ++ 0 ∷ []) ≡ suc (suc (length s))
    size = omega (arith, length-append (c ∷ s) (0 ∷ []))

-- A text of fewer than 16777216 bytes is read back from its one-byte FString form, wherever it
-- stands in the data, and exactly its bytes are read.
pub fstring-Decodes : (s : Bytes) → FitsFstring s → Decodes fstring (encode_fstring s) s
unfolding fstring encode_fstring
fstring-Decodes [] h =
    subst (λ x. Decodes (i32 >>= fstring_body) x []) (append-nil (encode_i32 (pos 0)))
      (Decodes-bind fstring_body (i32-Decodes (pos 0) (omega arith))
        (unfold fstring_body in Decodes-pure []))
fstring-Decodes (c ∷ s) h =
    Decodes-bind fstring_body (i32-Decodes (pos (suc (suc (length s)))) (omega arith))
      (fstring_body-Decodes c s h)

-- 16 bytes, printed.
pub guid-Decodes : (b : Bytes) → length b ≡ 16 → Decodes guid b (format_guid b)
unfolding guid
guid-Decodes b h =
    subst₂ (λ k x. Decodes (read (pos k) >>= λ c. pure (format_guid c)) x (format_guid b)) h
      (append-nil b)
      (Decodes-bind (λ c. pure (format_guid c)) (read-Decodes b) (Decodes-pure (format_guid b)))

-- The encodings of a list, one behind the other.
unfoldable pub concat : List Bytes → Bytes
concat [] = []
concat (x ∷ xs) = x ++ concat xs

-- Each encoding with what it is read as.
abbrev pub AllDecode {ℓ} : {A : Type ℓ} → M A → List (Bytes × A) → Type ℓ
AllDecode m [] = Unit
AllDecode m ((x, a) ∷ l) = Decodes m x a × AllDecode m l

pub repeat-Decodes {ℓ} :
    {A : Type ℓ} (m : M A) (l : List (Bytes × A))
    → AllDecode m l
    → Decodes (repeat (length l) m) (concat (map (λ e. e.0) l)) (map (λ e. e.1) l)
unfolding repeat concat
repeat-Decodes m [] h = Decodes-pure []
repeat-Decodes m ((x, a) ∷ l) h = Decodes-bind _ h.0 (
    subst (λ y. Decodes (repeat (length l) m >>= λ vs. pure (a ∷ vs)) y (a ∷ map (λ e. e.1) l))
      (append-nil (concat (map (λ e. e.0) l)))
      (Decodes-bind _ (repeat-Decodes m l h.1) (Decodes-pure (a ∷ map (λ e. e.1) l))))
