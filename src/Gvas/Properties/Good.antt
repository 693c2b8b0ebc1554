-- ===== src/Gvas/Properties/Good.antt =====
-- If the property lists inside are read by the reader's rules, so is every property.
use pal_panel_host_wine.Prelude.{ℕ, Bytes, codes, ◌++◌}
use pal_panel_host_wine.Gvas.Value.{Fields, choose-elim, unknown_value_type, unknown_property_type}
use pal_panel_host_wine.Gvas.Reader.{M}
use pal_panel_host_wine.Gvas.Reader.Good.{
  Good, Good-fail, Good-pure, Good-bind_eats, good_rules, u16-Good, u32-Good, byte-Good,
  double_float-Good, fstring-Good,
}
use pal_panel_host_wine.Gvas.Parts.Good.{vector-Good, quat-Good, transform-Good}
use pal_panel_host_wine.Gvas.Scalars.Good.{
  linear_color-Good, int_value-Good, uint_value-Good, int64_value-Good, uint64_value-Good,
  text_value-Good, guid_value-Good, bool_value-Good, single_value-Good, plain_array-Good,
  with_id-Good, enum_property-Good, byte_property-Good, bool_property-Good,
}
use pal_panel_host_wine.Gvas.Properties.{
  struct_cases, value_cases, property_cases, properties_value, struct_value, struct, prop_value,
  struct_array, array_property, map_entry, map_property, set_property, array_fields,
  property_fields, plain_property,
}

module _ (properties : Bytes → M Fields) {n : ℕ}
    (good : (p : Bytes) → Good n 1 (properties p)) where
  pub struct_value-Good : (t path : Bytes) → Good n 1 (struct_value properties t path)
  unfolding struct_value properties_value
  struct_value-Good t path =
      choose-elim (λ m. Good n 1 m) t struct_cases _
        (
          vector-Good,
          (
            quat-Good,
            (
              transform-Good,
              (vector-Good, (uint64_value-Good, (guid_value-Good, (linear_color-Good, tt)))),
            ),
          ),
        )
        (Good-bind_eats _ _ (good path) λ fs. Good-pure _)

  pub struct-Good : (path : Bytes) → Good n 1 (struct properties path)
  unfolding struct
  struct-Good path =
      Good-bind_eats _ _ fstring-Good λ t. search (good_rules, struct_value-Good) depth 10

  prop_value-Good : (t s path : Bytes) → Good n 1 (prop_value properties t s path)
  unfolding prop_value
  prop_value-Good t s path =
      choose-elim (λ m. Good n 1 m) t (value_cases properties s path) _
        (
          struct_value-Good s path,
          (
            text_value-Good,
            (
              text_value-Good,
              (
                text_value-Good,
                (
                  int_value-Good,
                  (uint_value-Good, (int64_value-Good, (bool_value-Good, (guid_value-Good, tt)))),
                ),
              ),
            ),
          ),
        )
        (Good-fail (unknown_value_type t path) tt)

  struct_array-Good : (count : ℕ) (path : Bytes) → Good n 0 (struct_array properties count path)
  unfolding struct_array
  struct_array-Good count path = search (good_rules, struct_value-Good) depth 20

  array_property-Good :
      (t : Bytes) (size : ℕ) (path : Bytes) → Good n 1 (array_property properties t size path)
  unfolding array_property
  array_property-Good t size path =
      Good-bind_eats _ _ u32-Good λ count. search (good_rules, struct_array-Good, plain_array-Good)

  map_entry-Good : (k v ks vs path : Bytes) → Good n 1 (map_entry properties k v ks vs path)
  unfolding map_entry
  map_entry-Good k v ks vs path =
      Good-bind_eats _ _ (prop_value-Good k ks (path ++ codes ".Key"))
        λ key. search (good_rules, prop_value-Good)

  pub map_property-Good : (path : Bytes) → Good n 1 (map_property properties path)
  unfolding map_property
  map_property-Good path =
      Good-bind_eats _ _ fstring-Good λ t. search (good_rules, map_entry-Good) depth 20

  pub set_property-Good : (path : Bytes) → Good n 1 (set_property properties path)
  unfolding set_property
  set_property-Good path =
      Good-bind_eats _ _ fstring-Good λ t. search (good_rules, prop_value-Good) depth 20

  array_fields-Good : (size : ℕ) (path : Bytes) → Good n 1 (array_fields properties size path)
  unfolding array_fields
  array_fields-Good size path =
      Good-bind_eats _ _ fstring-Good λ t. search (good_rules, array_property-Good) depth 10

  pub property_fields-Good :
      (t : Bytes) (size : ℕ) (path : Bytes) → Good n 1 (property_fields properties t size path)
  unfolding property_fields
  property_fields-Good t size path =
      choose-elim (λ m. Good n 1 m) t (property_cases properties size path) _
        (
          struct-Good path,
          (
            with_id-Good int_value-Good,
            (
              with_id-Good (Good-bind_eats _ _ byte-Good λ b. Good-pure _),
              (
                with_id-Good (Good-bind_eats _ _ u16-Good λ b. Good-pure _),
                (
                  with_id-Good uint_value-Good,
                  (
                    with_id-Good uint64_value-Good,
                    (
                      with_id-Good int64_value-Good,
                      (
                        with_id-Good int_value-Good,
                        (
                          with_id-Good single_value-Good,
                          (
                            with_id-Good (Good-bind_eats _ _ double_float-Good λ b. Good-pure _),
                            (
                              with_id-Good text_value-Good,
                              (
                                with_id-Good text_value-Good,
                                (
                                  with_id-Good text_value-Good,
                                  (
                                    with_id-Good text_value-Good,
                                    (
                                      enum_property-Good,
                                      (
                                        bool_property-Good,
                                        (
                                          byte_property-Good,
                                          (
                                            array_fields-Good size path,
                                            (map_property-Good path, (set_property-Good path, tt)),
                                          ),
                                        ),
                                      ),
                                    ),
                                  ),
                                ),
                              ),
                            ),
                          ),
                        ),
                      ),
                    ),
                  ),
                ),
              ),
            ),
          ),
        )
        (Good-fail (unknown_property_type t) tt)

  pub plain_property-Good :
      (t : Bytes) (size : ℕ) (path : Bytes) → Good n 1 (plain_property properties t size path)
  unfolding plain_property
  plain_property-Good t size path =
      Good-bind_eats _ _ (property_fields-Good t size path) λ fs. Good-pure _
