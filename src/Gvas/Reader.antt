-- ===== src/Gvas/Reader.antt =====
-- sav-cli/internal/gvas/gvas.go: the byte reader and its primitives.
-- A method of `*Reader` is an action of `M`: it returns its result beside the moved reader. After
-- an error no caller goes on with the same reader, so an error carries none.
pub mod Good
pub mod Weighs
pub mod Encode
pub mod Stable
pub mod Guid
use pal_panel_host_wine.Prelude.{
  ℕ, zero, suc, ◌+◌, ◌-◌, ◌*◌, ◌/◌, ◌%◌, Bool, true, false, not, ◌&&◌, List, [], ◌∷◌, ◌++◌, Bytes,
  length, take, drop, ltb, leb, ◌==◌, if◌then◌else◌,
}
use pal_panel_host_wine.Prelude.Int.{ℤ, pos, negsuc, signed32, signed64, negate_i32, double, above}
use pal_panel_host_wine.Gvas.Value.{
  Value, nil, str, arr, items, Error, past_end, fstring_too_large, unreasonable_count,
}

pub data Result {ℓ} (A : Type ℓ) : Type ℓ where
  ok : A → Result A
  err : Error → Result A

pub record Reader : Type 0 where
  pub bytes : Bytes
  pub pos : ℕ

abbrev pub M {ℓ} : Type ℓ → Type ℓ
M A = Reader → Result (A × Reader)

module _ {ℓ} {A : Type ℓ} where
  unfoldable pub pure : A → M A
  pure a r = ok (a, r)

  unfoldable pub fail : Error → M A
  fail e r = err e

-- The rest of a block, after a step that has returned.
unfoldable pub continue {ℓ κ} :
    {A : Type ℓ} {B : Type κ} → Result (A × Reader) → (A → M B) → Result (B × Reader)
continue (ok (a, r)) f = f a r
continue (err e) f = err e

infixl 10 ◌>>=◌ ◌>>◌
unfoldable pub ◌>>=◌ {ℓ κ} : {A : Type ℓ} {B : Type κ} → M A → (A → M B) → M B
unfolding pure fail continue
◌>>=◌ m f r = continue (m r) f

abbrev pub ◌>>◌ {ℓ κ} : {A : Type ℓ} {B : Type κ} → M A → M B → M B
m >> k = m >>= λ _. k

unfoldable pub new_reader : Bytes → Reader
new_reader data' = record { bytes = data'; pos = 0 }

unfoldable pub eof : Reader → Bool
eof r = leb (length r.bytes) r.pos

unfoldable pub remaining : Reader → ℕ
remaining r = if leb (length r.bytes) r.pos then 0 else length r.bytes - r.pos

-- `r.EOF()` and `r.Remaining()` inside a block.
unfoldable pub at_eof : M Bool
at_eof r = ok (eof r, r)

unfoldable pub get_remaining : M ℕ
get_remaining r = ok (remaining r, r)

-- `n` is an int: a negative one is refused.
unfoldable pub read : ℤ → M Bytes
read (negsuc n) r = err (past_end r.pos (negsuc n) (remaining r))
read (pos n) r =
    if ltb (length r.bytes) (r.pos + n)
    then err (past_end r.pos (pos n) (remaining r))
    else ok (take n (drop r.pos r.bytes), record r { pos = r.pos + n })

unfoldable pub skip : ℤ → M (Unit {0})
skip n = do read n; pure tt

-- binary.LittleEndian: the first byte is the lowest.
abbrev pub le_value : Bytes → ℕ
le_value [] = 0
le_value (b ∷ bs) = b + 256 * le_value bs

-- `b[0]` of the one byte read.
unfoldable pub first_byte : Bytes → ℕ
first_byte [] = 0
first_byte (b ∷ _) = b

unfoldable pub byte : M ℕ
byte = do b ← read (pos 1); pure (first_byte b)

unfoldable pub bool : M Bool
bool = do b ← byte; pure (not (b == 0))

unfoldable pub u16 : M ℕ
u16 = do b ← read (pos 2); pure (le_value b)

unfoldable pub u32 : M ℕ
u32 = do b ← read (pos 4); pure (le_value b)

unfoldable pub i32 : M ℤ
i32 = do b ← read (pos 4); pure (signed32 (le_value b))

unfoldable pub u64 : M ℕ
u64 = do b ← read (pos 8); pure (le_value b)

unfoldable pub i64 : M ℤ
i64 = do b ← read (pos 8); pure (signed64 (le_value b))

-- The bit patterns of a float32 and a float64.
unfoldable pub float : M ℕ
float = do b ← read (pos 4); pure (le_value b)

unfoldable pub double_float : M ℕ
double_float = do b ← read (pos 8); pure (le_value b)

-- `string(b[:len(b)-1])`, and "" for no bytes.
unfoldable pub ascii_text : Bytes → Bytes
ascii_text b = if length b == 0 then [] else take (length b - 1) b

-- The code units at i = 0, 2, ... of a slice.
unfoldable pub utf16_units : Bytes → List ℕ
utf16_units (lo ∷ hi ∷ rest) = (lo + 256 * hi) ∷ utf16_units rest
utf16_units _ = []

-- `string` of one rune below 2 ^ 16: UTF-8, with U+FFFD for a surrogate.
unfoldable pub utf8 : ℕ → Bytes
utf8 c =
    if ltb c 128
    then c ∷ []
    else if ltb c 2048
    then (192 + c / 64) ∷ (128 + c % 64) ∷ []
    else if leb 55296 c && leb c 57343
    then 239 ∷ 191 ∷ 189 ∷ []
    else (224 + c / 4096) ∷ (128 + c / 64 % 64) ∷ (128 + c % 64) ∷ []

-- `string(runes)`.
unfoldable pub utf8_text : List ℕ → Bytes
utf8_text [] = []
utf8_text (c ∷ cs) = utf8 c ++ utf8_text cs

unfoldable pub utf16_text : Bytes → Bytes
utf16_text b = if ltb (length b) 2 then [] else utf8_text (utf16_units (take (length b - 2) b))

-- `chars` is `-n`, an int32.
unfoldable pub utf16_string : ℤ → M Bytes
utf16_string chars =
    if above chars 8388608
    then fail (fstring_too_large chars)
    else do b ← read (double chars); pure (utf16_text b)

unfoldable pub fstring_body : ℤ → M Bytes
fstring_body (pos zero) = pure []
fstring_body (pos n) =
    if above (pos n) 16777216
    then fail (fstring_too_large (pos n))
    else do b ← read (pos n); pure (ascii_text b)
fstring_body (negsuc k) = utf16_string (negate_i32 k)

unfoldable pub fstring : M Bytes
fstring = do n ← i32; fstring_body n

-- `%02x`.
unfoldable pub hex_digit : ℕ → ℕ
hex_digit d = if ltb d 10 then 48 + d else 87 + d

unfoldable pub hex : ℕ → Bytes
hex b = hex_digit (b / 16) ∷ hex_digit (b % 16) ∷ []

unfoldable pub hexes : Bytes → Bytes
hexes [] = []
hexes (b ∷ bs) = hex b ++ hexes bs

-- The bytes of each little-endian word are printed from the highest.
unfoldable pub format_guid : Bytes → Bytes
format_guid
      (b0 ∷ b1 ∷ b2 ∷ b3 ∷ b4 ∷ b5 ∷ b6 ∷ b7 ∷ b8 ∷ b9 ∷ b10 ∷ b11 ∷ b12 ∷ b13 ∷ b14 ∷ b15 ∷ []) =
    hexes (b3 ∷ b2 ∷ b1 ∷ b0 ∷ [])
    ++ 45
      ∷ (hexes (b7 ∷ b6 ∷ [])
          ++ 45
            ∷ (hexes (b5 ∷ b4 ∷ [])
                ++ 45
                  ∷ (hexes (b11 ∷ b10 ∷ []) ++ 45 ∷ hexes (b9 ∷ b8 ∷ b15 ∷ b14 ∷ b13 ∷ b12 ∷ []))))
format_guid _ = []

unfoldable pub guid : M Bytes
guid = do b ← read (pos 16); pure (format_guid b)

unfoldable pub optional_guid : M Value
optional_guid = do present ← byte; if present == 0 then pure nil else do g ← guid; pure (str g)

-- `for range count`: each round's value, in order.
unfoldable pub repeat {ℓ} : {A : Type ℓ} → ℕ → M A → M (List A)
repeat zero m = pure []
repeat (suc n) m = do v ← m; vs ← repeat n m; pure (v ∷ vs)

unfoldable pub tarray : M Value → M Value
tarray read_one = do
  count ← u32
  if ltb 10000000 count
      then fail (unreasonable_count count)
      else do vs ← repeat count read_one; pure (arr (items vs))

-- The result alone.
unfoldable pub result {ℓ} : {A : Type ℓ} → Result (A × Reader) → Result A
result (ok (a, r)) = ok a
result (err e) = err e

-- `NewReader(data)` and one read over it.
unfoldable pub run {ℓ} : {A : Type ℓ} → M A → Bytes → Result A
run m bytes = result (m (new_reader bytes))

-- `mustReadRest`: nil where the read fails.
unfoldable pub must_read_rest : M Bytes
must_read_rest r = elim (read (pos (remaining r)) r) [ ok x ↦ ok x | err _ ↦ ok ([], r) ]
