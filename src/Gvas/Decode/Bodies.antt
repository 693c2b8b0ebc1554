-- ===== src/Gvas/Decode/Bodies.antt =====
-- The reader on the body of each property that the writer has.
use mathlib.Core.Path.{subst}
use pal_panel_host_wine.Prelude.{
  ℕ, ◌+◌, ◌-◌, ◌%◌, ◌^◌, ◌≤◌, ◌<◌, ◌≡◌, refl, sym, ap, Bool, true, false, [], ◌∷◌, ◌++◌, map, Bytes,
  String, codes, bytes_eq, length, length-append, All, ltb-false, leb, ◌==◌, ==_iff, not,
  if◌then◌else◌, arith,
}
use pal_panel_host_wine.Prelude.Int.{ℤ}
use pal_panel_host_wine.Gvas.Value.{Value, Fields, fields, put, put_all, array, choose}
use pal_panel_host_wine.Gvas.Reader.{M, continue, ◌>>=◌, at_eof, eof, bool, optional_guid, repeat}
use pal_panel_host_wine.Gvas.Reader.Encode.{
  Decodes, Decodes-pure, Decodes-bind, Decodes-last, encode_le, encode_i32, encode_fstring, IsI32,
  FitsFstring, byte-Decodes, u32-Decodes, i32-Decodes, fstring-Decodes, guid-Decodes,
}
use pal_panel_host_wine.Gvas.Parts.{byte_int}
use pal_panel_host_wine.Gvas.Scalars.{
  byte_element, array_value, plain_array, with_id, bool_property,
}
use pal_panel_host_wine.Gvas.Properties.{
  properties_value, struct_value, struct, array_property, array_fields, property_fields,
  plain_property,
}
use pal_panel_host_wine.Gvas.Decode.{annotate, annotated}
use pal_panel_host_wine.Gvas.Decode.Encode.{
  Tree, none_left, int_prop, str_prop, bool_prop, bytes_prop, struct_prop, struct_type,
  encode_property, flag, encode_bytes, encode_struct, encode, simple, bytes_value, struct_fields,
  weight,
}

-- With something to read, the reader is not at its end.
pub not_at_end {ℓ} :
    {A : Type ℓ} {m : M A} (m' : M A) {x : Bytes} {a : A}
    → 0 < length x
    → Decodes m x a
    → Decodes (at_eof >>= λ done. if done then m' else m) x a
unfolding ◌>>=◌ continue at_eof eof
not_at_end {m} m' {x} some d = record {
  at = λ before rest.
      let e : leb (length (before ++ (x ++ rest))) (length before) ≡ false =
        ground (arith, length-append before (x ++ rest), length-append x rest) in
      rw e (d.at before rest);
}

pub annotate-Decodes :
    (p t : Bytes) {m : M Fields} {x : Bytes} {a : Fields}
    → Decodes m x a
    → Decodes (annotate p t m) x a
unfolding annotate annotated
annotate-Decodes p t d = record { at = λ before rest. ap (annotated p t) (d.at before rest) }

pub length-encode_fstring : (s : Bytes) → 4 ≤ length (encode_fstring s)
unfolding encode_fstring encode_i32 encode_le
length-encode_fstring [] = omega arith
length-encode_fstring (c ∷ s) = omega arith

length-encode_property :
    (n : Bytes) (tag : String) (size : ℕ) (body rest : Bytes)
    → 4 + length body + length rest ≤ length (encode_property n tag size body rest)
length-encode_property n tag size body rest = omega (
  arith,
  length-encode_fstring n,
  length-append (encode_fstring n)
      (encode_fstring (codes tag) ++ (encode_le 8 size ++ (body ++ rest))),
  length-append (encode_fstring (codes tag)) (encode_le 8 size ++ (body ++ rest)),
  length-append (encode_le 8 size) (body ++ rest),
  length-append body rest,
)

length-encode_struct : (g inner : Bytes) → length inner ≤ length (encode_struct g inner)
length-encode_struct g inner = omega (
  arith,
  length-append (encode_fstring struct_type) (g ++ (0 ∷ inner)),
  length-append g (0 ∷ inner),
)

-- Every round has written at least a byte.
pub weight-length : (t : Tree) → weight t ≤ length (encode t)
unfolding encode weight
weight-length none_left = omega (arith, length-encode_fstring (codes "None"))
weight-length (int_prop n z r) =
    omega (
      arith,
      weight-length r,
      length-encode_property n "IntProperty" 4 (0 ∷ encode_i32 z) (encode r),
    )
weight-length (str_prop n s r) = omega (
  arith,
  weight-length r,
  length-encode_property n "StrProperty" (length (encode_fstring s)) (0 ∷ encode_fstring s)
      (encode r),
)
weight-length (bool_prop n b r) =
    omega (
      arith,
      weight-length r,
      length-encode_property n "BoolProperty" 0 (flag b ∷ 0 ∷ []) (encode r),
    )
weight-length (bytes_prop n b r) = omega (
  arith,
  weight-length r,
  length-encode_property n "ArrayProperty" (length b + 4) (encode_bytes b) (encode r),
)
weight-length (struct_prop n g t r) = omega (
  arith,
  weight-length t,
  weight-length r,
  length-encode_struct g (encode t),
  length-encode_property n "StructProperty" (length (encode t)) (encode_struct g (encode t))
      (encode r),
)

no_guid-Decodes : Decodes optional_guid (0 ∷ []) Value.nil
unfolding optional_guid
no_guid-Decodes = Decodes-bind _ (byte-Decodes 0 (omega arith)) (Decodes-pure Value.nil)

byte_elements-Decode :
    (b : Bytes) → All (λ x. x < 256) b → Decodes (repeat (length b) byte_element) b (map byte_int b)
unfolding repeat byte_element
byte_elements-Decode [] h = Decodes-pure []
byte_elements-Decode (x ∷ b) h =
    Decodes-bind _ (Decodes-last byte_int (byte-Decodes x h.0))
      (Decodes-last (λ vs. byte_int x ∷ vs) (byte_elements-Decode b h.1))

with_id-Decodes :
    {m : M Value} {x : Bytes} {v : Value}
    → Decodes m x v
    → Decodes (with_id m) (0 ∷ x) (fields (("id", Value.nil) ∷ ("value", v) ∷ []))
unfolding with_id put_all put bytes_eq
with_id-Decodes d = Decodes-bind _ no_guid-Decodes (Decodes-last _ d)

bool-Decodes : (b : Bool) → Decodes bool (flag b ∷ []) b
unfolding bool
bool-Decodes true = Decodes-last (λ x. not (x == 0)) (byte-Decodes 1 (omega arith))
bool-Decodes false = Decodes-last (λ x. not (x == 0)) (byte-Decodes 0 (omega arith))

size_back : (n : ℕ) → n ≤ 10000000 → ((n + 4) + 2 ^ 64 - 4) % 2 ^ 64 ≡ n
size_back n h = omega arith

module _ (properties : Bytes → M Fields) (path : Bytes) where
  pub int_prop-Decodes :
      (z : ℤ)
      → IsI32 z
      → Decodes
          (plain_property properties (codes "IntProperty") 4 path)
          (0 ∷ encode_i32 z)
          (simple "IntProperty" (Value.int z))
  unfolding plain_property property_fields choose put bytes_eq
  int_prop-Decodes z h = Decodes-last _ (with_id-Decodes (Decodes-last Value.int (i32-Decodes z h)))

  pub str_prop-Decodes :
      (s : Bytes)
      → FitsFstring s
      → Decodes
          (plain_property properties (codes "StrProperty") (length (encode_fstring s)) path)
          (0 ∷ encode_fstring s)
          (simple "StrProperty" (Value.str s))
  unfolding plain_property property_fields choose put bytes_eq
  str_prop-Decodes s h =
      Decodes-last _ (with_id-Decodes (Decodes-last Value.str (fstring-Decodes s h)))

  pub bool_prop-Decodes :
      (b : Bool)
      → Decodes
          (plain_property properties (codes "BoolProperty") 0 path)
          (flag b ∷ 0 ∷ [])
          (simple "BoolProperty" (Value.bool b))
  unfolding plain_property property_fields choose put put_all bytes_eq bool_property
  bool_prop-Decodes b =
      Decodes-last _ (Decodes-bind _ (bool-Decodes b) (Decodes-last _ no_guid-Decodes))

  byte_array-Decodes :
      (b : Bytes)
      → length b ≤ 10000000
      → All (λ x. x < 256) b
      → Decodes
          (array_property properties (codes "ByteProperty") (length b) path)
          (encode_le 4 (length b) ++ b)
          (Value.obj (fields (("values", array (map byte_int b)) ∷ [])))
  unfolding array_property plain_array array_value bytes_eq
  byte_array-Decodes b n h = Decodes-bind _ (u32-Decodes (length b) (omega arith)) (
      rw (ltb-false 10000000 (length b) n)
        (rw ((==_iff (length b) (length b)).1 refl) (Decodes-last _ (byte_elements-Decode b h))))

  pub bytes_prop-Decodes :
      (b : Bytes)
      → length b ≤ 10000000
      → All (λ x. x < 256) b
      → Decodes
          (plain_property properties (codes "ArrayProperty") (length b + 4) path)
          (encode_bytes b)
          (bytes_value b)
  unfolding plain_property property_fields choose put put_all bytes_eq array_fields
  bytes_prop-Decodes b n h = Decodes-last _ (
      Decodes-bind _ (fstring-Decodes (codes "ByteProperty") (omega arith)) (
        Decodes-bind _ no_guid-Decodes (
          Decodes-last _ (
            subst
              (λ k.
                Decodes (array_property properties (codes "ByteProperty") k path)
                  (encode_le 4 (length b) ++ b)
                  (Value.obj (fields (("values", array (map byte_int b)) ∷ []))))
              (sym (size_back (length b) n)) (byte_array-Decodes b n h)))))

  pub struct_prop-Decodes :
      (g inner : Bytes) (size : ℕ) (v : Fields)
      → length g ≡ 16
      → Decodes (properties path) inner v
      → Decodes
          (plain_property properties (codes "StructProperty") size path)
          (encode_struct g inner)
          (struct_fields g v)
  unfolding plain_property property_fields choose put put_all bytes_eq struct struct_value
      properties_value
  struct_prop-Decodes g inner size v n d = Decodes-last _ (
      Decodes-bind _ (fstring-Decodes struct_type (omega arith)) (
        Decodes-bind _ (guid-Decodes g n)
          (Decodes-bind _ no_guid-Decodes (Decodes-last _ (Decodes-last Value.obj d)))))
