-- ===== src/Gvas/Decode/Weight.antt =====
-- A raw property holds no more bytes than were read for it.
use pal_panel_host_wine.Prelude.{
  ℕ, ◌≤◌, ◌≡◌, refl, ap, ◌∙◌, Bool, true, false, List, [], ◌∷◌, ◌++◌, Bytes, codes, bytes_eq,
  length, arith, ltb, if◌then◌else◌,
}
use pal_panel_host_wine.Gvas.Value.{
  Value, Fields, end, field, items, array, get, put, put_all, AllObj, choose-elim, get-put_ne,
  unknown_property_type, unreasonable_count,
}
use pal_panel_host_wine.Gvas.Reader.{M}
use pal_panel_host_wine.Gvas.Reader.Good.{
  Good, Good-pure, Good-bind_eats, Good-weaken, byte-Good, u16-Good, double_float-Good,
  fstring-Good, optional_guid-Good, u32-Good, u64-Good, guid-Good, skip-Good,
}
use pal_panel_host_wine.Gvas.Reader.Weighs.{
  Returns, Returns-pure, Returns-fail, Returns-bind, Returns-bind_from, Returns-if, returns_rules,
  Weighs, Weighs-bind, Weighs-map, Weighs-light, Weighs-if, Weighs-fail, repeat-Weighs,
}
use pal_panel_host_wine.Gvas.Parts.{vector, quat, transform}
use pal_panel_host_wine.Gvas.Hints.{struct_hint}
use pal_panel_host_wine.Gvas.Scalars.{
  linear_color, with_id, enum_property, enum_fields, byte_property, bool_property, array_value,
  plain_array,
}
use pal_panel_host_wine.Gvas.Scalars.Good.{
  int_value-Good, uint_value-Good, int64_value-Good, uint64_value-Good, text_value-Good,
  single_value-Good, with_id-Good, enum_property-Good, byte_property-Good, bool_property-Good,
  byte_element-Good, array_element-Good,
}
use pal_panel_host_wine.Gvas.Properties.{
  struct_cases, property_cases, properties_value, struct_value, struct, struct_array,
  array_property, map_property, set_property, array_fields, property_fields, plain_property,
}
use pal_panel_host_wine.Gvas.Properties.Good.{
  struct-Good, map_property-Good, set_property-Good, struct_value-Good,
}
use pal_panel_host_wine.Gvas.Decode.{
  Host, get_nested, item_bytes, list_bytes, raw_or, bytes_from_property,
}

module _ (host : Host) where
  -- The bytes behind the "value" of a property.
  abbrev weight : Value → ℕ
  weight v = length (list_bytes host (get_nested v (codes "values" ∷ [])))

  abbrev pub property_weight : Fields → ℕ
  property_weight fs = length (bytes_from_property host (Value.obj fs))

  list_bytes-raw_or : (v : Value) → list_bytes host (raw_or v Value.nil) ≡ list_bytes host v
  unfolding list_bytes raw_or
  list_bytes-raw_or Value.nil = refl
  list_bytes-raw_or _ = refl

  -- A property map is weighed by its "value".
  property_weight-value :
      (fs : Fields)
      → get (codes "values") fs ≡ Value.nil
      → property_weight fs ≡ weight (get (codes "value") fs)
  unfolding bytes_from_property get_nested
  property_weight-value fs none = rw none (
      ap (λ (l : Bytes). length l)
        (list_bytes-raw_or (get_nested (get (codes "value") fs) (codes "values" ∷ []))))

  -- A value that is no map.
  abbrev IsFlat : Value → Type 0
  IsFlat (Value.obj _) = ⊥
  IsFlat _ = Unit

  weight-IsFlat : (v : Value) → IsFlat v → weight v ≡ 0
  unfolding get_nested list_bytes
  weight-IsFlat Value.nil h = refl
  weight-IsFlat (Value.obj fs) h = absurd h
  weight-IsFlat _ h = refl

  list_bytes-AllObj : (k : Bytes) (fs : Fields) → AllObj fs → list_bytes host (get k fs) ≡ []
  unfolding get list_bytes
  list_bytes-AllObj k end h = refl
  list_bytes-AllObj k (field j (Value.obj m) fs) h =
      rw_if (bytes_eq j k) (list_bytes-AllObj k fs h.1)
    where
      rw_if :
          (t : Bool)
          → list_bytes host (get k fs) ≡ []
          → list_bytes host (if t then Value.obj m else get k fs) ≡ []
      rw_if true e = refl
      rw_if false e = e
  list_bytes-AllObj k (field j _ fs) h = absurd h.0

  length-item_bytes : (vs : List Value) → length (item_bytes host (items vs)) ≤ length vs
  unfolding item_bytes
  length-item_bytes [] = omega arith
  length-item_bytes (Value.int n ∷ vs) = omega (arith, length-item_bytes vs)
  length-item_bytes (Value.uint n ∷ vs) = omega (arith, length-item_bytes vs)
  length-item_bytes (Value.byte n ∷ vs) = omega (arith, length-item_bytes vs)
  length-item_bytes (Value.single n ∷ vs) = omega (arith, length-item_bytes vs)
  length-item_bytes (Value.double n ∷ vs) = omega (arith, length-item_bytes vs)
  length-item_bytes (_ ∷ vs) = omega (arith, length-item_bytes vs)

  -- The weight of a property with its "type" written.
  abbrev typed_weight : Bytes → Fields → ℕ
  typed_weight t fs = property_weight (put (codes "type") (Value.str t) fs)

  typed_weight-value :
      (t : Bytes) (fs : Fields)
      → get (codes "values") fs ≡ Value.nil
      → typed_weight t fs ≡ weight (get (codes "value") fs)
  typed_weight-value t fs none =
      property_weight-value (put (codes "type") (Value.str t) fs) (
        get-put_ne (codes "type") (codes "values") (Value.str t) fs (unfold bytes_eq in refl)
        ∙ none)
      ∙ ap weight
          (get-put_ne (codes "type") (codes "value") (Value.str t) fs (unfold bytes_eq in refl))

  module _ (t : Bytes) where
    -- Properties whose value is light.
    with_id-light :
        (m : M Value) → Returns IsFlat m → Returns (λ fs. typed_weight t fs ≡ 0) (with_id m)
    unfolding with_id put_all put get bytes_eq
    with_id-light m h = Returns-bind _ _ λ id. Returns-bind_from m _ h λ v flat. Returns-pure _ (
        typed_weight-value t (put_all (("id", id) ∷ ("value", v) ∷ []) end) refl
        ∙ weight-IsFlat v flat)

    enum_fields-light : (e : Bytes) (id v : Value) → typed_weight t (enum_fields e id v) ≡ 0
    unfolding enum_fields put_all put get bytes_eq get_nested list_bytes
    enum_fields-light e id v = typed_weight-value t (enum_fields e id v) refl

    enum_property-light : Returns (λ fs. typed_weight t fs ≡ 0) enum_property
    unfolding enum_property
    enum_property-light = search (returns_rules, enum_fields-light) depth 10

    byte_property-light : Returns (λ fs. typed_weight t fs ≡ 0) byte_property
    unfolding byte_property
    byte_property-light = search (returns_rules, enum_fields-light) depth 10

    bool_property-light : Returns (λ fs. typed_weight t fs ≡ 0) bool_property
    unfolding bool_property put_all put get bytes_eq get_nested list_bytes
    bool_property-light = Returns-bind _ _ λ v. Returns-bind _ _ λ id.
        Returns-pure _
          (typed_weight-value t (put_all (("id", id) ∷ ("value", Value.bool v) ∷ []) end) refl)

    module _ (properties : Bytes → M Fields) where
      map_property-light :
          (path : Bytes) → Returns (λ fs. typed_weight t fs ≡ 0) (map_property properties path)
      unfolding map_property put_all put get bytes_eq get_nested list_bytes
      map_property-light path = Returns-bind _ _ λ kt. Returns-bind _ _ λ vt. Returns-bind _ _ λ id.
          Returns-bind _ _ λ u. Returns-bind _ _ λ count.
            Returns-if (ltb 10000000 count) (Returns-fail (unreasonable_count count)) (
              Returns-bind _ _ λ vs. Returns-pure _ (
                typed_weight-value t
                  (put_all
                    (("key_type", Value.str kt)
                      ∷ ("value_type", Value.str vt)
                      ∷ (
                        "key_struct_type",
                        Value.str (struct_hint kt (path ++ codes ".Key") "Guid"),
                      )
                      ∷ (
                        "value_struct_type",
                        Value.str (struct_hint vt (path ++ codes ".Value") "StructProperty"),
                      )
                      ∷ ("id", id)
                      ∷ ("value", array vs)
                      ∷ [])
                    end)
                  refl))

      set_property-light :
          (path : Bytes) → Returns (λ fs. typed_weight t fs ≡ 0) (set_property properties path)
      unfolding set_property put_all put get bytes_eq get_nested list_bytes
      set_property-light path = Returns-bind _ _ λ et. Returns-bind _ _ λ id. Returns-bind _ _ λ u.
          Returns-bind _ _ λ count. Returns-bind _ _ λ vs. Returns-pure _ (
            typed_weight-value t
              (put_all (("element_type", Value.str et) ∷ ("id", id) ∷ ("value", array vs) ∷ []) end)
              refl)

      module _ (maps : (p : Bytes) → Returns AllObj (properties p)) where
        properties_value-light :
            (path : Bytes) → Returns (λ v. weight v ≡ 0) (properties_value properties path)
        unfolding properties_value get_nested
        properties_value-light path = Returns-bind_from (properties path) _ (maps path) λ fs all.
            Returns-pure _
              (ap (λ (l : Bytes). length l) (list_bytes-AllObj (codes "values") fs all))

        struct_value-light :
            (s path : Bytes) → Returns (λ v. weight v ≡ 0) (struct_value properties s path)
        unfolding struct_value vector quat transform linear_color get_nested get bytes_eq list_bytes
        struct_value-light s path =
            choose-elim (λ m. Returns (λ v. weight v ≡ 0) m) s struct_cases _
              (
                search returns_rules depth 10,
                (
                  search returns_rules depth 10,
                  (
                    search returns_rules depth 10,
                    (
                      search returns_rules depth 10,
                      (
                        search returns_rules,
                        (search returns_rules, (search returns_rules depth 10, tt)),
                      ),
                    ),
                  ),
                ),
              )
              (properties_value-light path)

        struct-light :
            (path : Bytes) → Returns (λ fs. typed_weight t fs ≡ 0) (struct properties path)
        unfolding struct put_all put get bytes_eq
        struct-light path = Returns-bind _ _ λ st. Returns-bind _ _ λ si. Returns-bind _ _ λ id.
            Returns-bind_from _ _ (struct_value-light st path) λ v light. Returns-pure _ (
              typed_weight-value t
                (put_all
                  (("struct_type", Value.str st)
                    ∷ ("struct_id", Value.str si)
                    ∷ ("id", id)
                    ∷ ("value", v)
                    ∷ [])
                  end)
                refl
              ∙ light)

      module _ {n : ℕ} (good : (p : Bytes) → Good n 1 (properties p)) where
        array_value-Weighs :
            (a : Bytes) (count size : ℕ) (path : Bytes)
            → Weighs n length (array_value a count size path)
        unfolding array_value
        array_value-Weighs a count size path =
            Weighs-if _ (repeat-Weighs byte_element-Good count)
              (repeat-Weighs (array_element-Good a path) count)

        plain_array-Weighs :
            (a : Bytes) (count size : ℕ) (path : Bytes)
            → Weighs n weight (plain_array a count size path)
        unfolding plain_array get_nested get bytes_eq list_bytes
        plain_array-Weighs a count size path =
            Weighs-map _ _ (array_value-Weighs a count size path) length-item_bytes

        struct_array-Weighs :
            (count : ℕ) (path : Bytes) → Weighs n weight (struct_array properties count path)
        unfolding struct_array get_nested get bytes_eq list_bytes
        struct_array-Weighs count path = Weighs-bind _ _ (Good-weaken fstring-Good) λ pn.
            Weighs-bind _ _ (Good-weaken fstring-Good) λ pt.
              Weighs-bind _ _ (Good-weaken u64-Good) λ size.
                Weighs-bind _ _ (Good-weaken fstring-Good) λ tn.
                  Weighs-bind _ _ (Good-weaken guid-Good) λ id. Weighs-bind _ _ (skip-Good _) λ pad.
                    Weighs-map _ _ (repeat-Weighs (struct_value-Good properties good tn _) count)
                      length-item_bytes

        array_property-Weighs :
            (a : Bytes) (size : ℕ) (path : Bytes)
            → Weighs n weight (array_property properties a size path)
        unfolding array_property
        array_property-Weighs a size path = Weighs-bind _ _ (Good-weaken u32-Good) λ count.
            Weighs-if (ltb 10000000 count) (Weighs-fail (unreasonable_count count)) (
              Weighs-if (bytes_eq a (codes "StructProperty")) (struct_array-Weighs count path)
                (plain_array-Weighs a count size path))

        array_fields-Weighs :
            (size : ℕ) (path : Bytes)
            → Weighs n (typed_weight t) (array_fields properties size path)
        unfolding array_fields put_all put get bytes_eq
        array_fields-Weighs size path = Weighs-bind _ _ (Good-weaken fstring-Good) λ a.
            Weighs-bind _ _ (Good-weaken optional_guid-Good) λ id.
              Weighs-map _ _ (array_property-Weighs a _ path) λ v. omega (
                arith,
                typed_weight-value t
                    (put_all (("array_type", Value.str a) ∷ ("id", id) ∷ ("value", v) ∷ []) end)
                    refl,
              )

        module _ (maps : (p : Bytes) → Returns AllObj (properties p)) where
          light :
              {m : M Fields}
              → Good n 1 m
              → Returns (λ fs. typed_weight t fs ≡ 0) m
              → Weighs n (typed_weight t) m
          light g h = Weighs-light _ (Good-weaken g) h

          plain :
              {m : M Value} → Good n 1 m → Returns IsFlat m → Weighs n (typed_weight t) (with_id m)
          plain {m} g h = light (with_id-Good g) (with_id-light m h)

          property_fields-Weighs :
              (size : ℕ) (path : Bytes)
              → Weighs n (typed_weight t) (property_fields properties t size path)
          unfolding property_fields
          property_fields-Weighs size path =
              choose-elim (λ m. Weighs n (typed_weight t) m) t (property_cases properties size path)
                _
                (search
                  (
                    light (struct-Good properties good path) (struct-light maps path),
                    light enum_property-Good enum_property-light,
                    light bool_property-Good bool_property-light,
                    light byte_property-Good byte_property-light,
                    light (map_property-Good properties good path) (map_property-light path),
                    light (set_property-Good properties good path) (set_property-light path),
                    array_fields-Weighs size path,
                    plain,
                    int_value-Good,
                    uint_value-Good,
                    int64_value-Good,
                    uint64_value-Good,
                    text_value-Good,
                    single_value-Good,
                    Good-bind_eats,
                    byte-Good,
                    u16-Good,
                    double_float-Good,
                    Good-pure,
                    returns_rules,
                  )
                  depth 40)
                (Weighs-fail (unknown_property_type t))

module _ (host : Host) (properties : Bytes → M Fields) {n : ℕ}
    (good : (p : Bytes) → Good n 1 (properties p))
    (maps : (p : Bytes) → Returns AllObj (properties p)) where
  -- The bytes of a raw property are within what was read for it.
  pub plain_property-Weighs :
      (t : Bytes) (size : ℕ) (path : Bytes)
      → Weighs n (property_weight host) (plain_property properties t size path)
  unfolding plain_property
  plain_property-Weighs t size path =
      Weighs-map _ _ (property_fields-Weighs host t properties good maps size path)
        λ fs. omega arith
