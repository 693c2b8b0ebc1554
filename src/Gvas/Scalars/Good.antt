-- ===== src/Gvas/Scalars/Good.antt =====
-- The readers of scalar values and properties read at least a byte, inside the data.
use pal_panel_host_wine.Prelude.{ℕ, Bytes}
use pal_panel_host_wine.Gvas.Value.{Value, choose-elim, unknown_array_type}
use pal_panel_host_wine.Gvas.Reader.{M}
use pal_panel_host_wine.Gvas.Reader.Good.{
  Good, Good-fail, Good-pure, Good-bind_eats, good_rules, float-Good, i32-Good, u32-Good, i64-Good,
  u64-Good, fstring-Good, guid-Good, bool-Good, byte-Good, optional_guid-Good,
}
use pal_panel_host_wine.Gvas.Scalars.{
  linear_color, int_value, uint_value, int64_value, uint64_value, text_value, guid_value,
  bool_value, single_value, array_cases, array_element, byte_element, array_value, plain_array,
  with_id, enum_property, byte_property, bool_property,
}

pub linear_color-Good : {n : ℕ} → Good n 1 linear_color
unfolding linear_color
linear_color-Good = Good-bind_eats _ _ float-Good λ x. search good_rules depth 20

module _ {n : ℕ} where
  pub int_value-Good : Good n 1 int_value
  int_value-Good = Good-bind_eats _ _ i32-Good λ _. Good-pure _

  pub uint_value-Good : Good n 1 uint_value
  uint_value-Good = Good-bind_eats _ _ u32-Good λ _. Good-pure _

  pub int64_value-Good : Good n 1 int64_value
  int64_value-Good = Good-bind_eats _ _ i64-Good λ _. Good-pure _

  pub uint64_value-Good : Good n 1 uint64_value
  uint64_value-Good = Good-bind_eats _ _ u64-Good λ _. Good-pure _

  pub text_value-Good : Good n 1 text_value
  text_value-Good = Good-bind_eats _ _ fstring-Good λ _. Good-pure _

  pub guid_value-Good : Good n 1 guid_value
  guid_value-Good = Good-bind_eats _ _ guid-Good λ _. Good-pure _

  pub bool_value-Good : Good n 1 bool_value
  bool_value-Good = Good-bind_eats _ _ bool-Good λ _. Good-pure _

  pub single_value-Good : Good n 1 single_value
  single_value-Good = Good-bind_eats _ _ float-Good λ _. Good-pure _

  pub byte_element-Good : Good n 1 byte_element
  unfolding byte_element
  byte_element-Good = Good-bind_eats _ _ byte-Good λ _. Good-pure _

  pub array_element-Good : (t path : Bytes) → Good n 1 (array_element t path)
  unfolding array_element
  array_element-Good t path =
      choose-elim (λ m. Good n 1 m) t array_cases _
        (
          text_value-Good,
          (
            text_value-Good,
            (
              text_value-Good,
              (
                guid_value-Good,
                (
                  int_value-Good,
                  (uint_value-Good, (int64_value-Good, (single_value-Good, (bool_value-Good, tt)))),
                ),
              ),
            ),
          ),
        )
        (Good-fail (unknown_array_type t path) tt)

  pub array_value-Good :
      (t : Bytes) (count size : ℕ) (path : Bytes) → Good n 0 (array_value t count size path)
  unfolding array_value
  array_value-Good t count size path = search (good_rules, byte_element-Good, array_element-Good)

  pub plain_array-Good :
      (t : Bytes) (count size : ℕ) (path : Bytes) → Good n 0 (plain_array t count size path)
  unfolding plain_array
  plain_array-Good t count size path = search (good_rules, array_value-Good)

  pub with_id-Good : {m : M Value} → Good n 1 m → Good n 1 (with_id m)
  unfolding with_id
  with_id-Good g = Good-bind_eats _ _ optional_guid-Good λ id. search good_rules

  pub enum_property-Good : Good n 1 enum_property
  unfolding enum_property
  enum_property-Good = Good-bind_eats _ _ fstring-Good λ t. search (good_rules, text_value-Good)

  pub byte_property-Good : Good n 1 byte_property
  unfolding byte_property
  byte_property-Good = Good-bind_eats _ _ fstring-Good λ t. search good_rules depth 10

  pub bool_property-Good : Good n 1 bool_property
  unfolding bool_property
  bool_property-Good = Good-bind_eats _ _ bool-Good λ t. search good_rules
