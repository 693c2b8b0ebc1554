-- ===== src/Indexer/Reads.antt =====
-- What the indexer reads out of the trees that the decoder builds.
use pal_panel_host_wine.Prelude.{
  ℕ, zero, suc, ◌<◌, ◌≡◌, refl, ap, ◌∙◌, false, none, some, List, [], ◌∷◌, ◌++◌, map, Bytes, codes,
  bytes_eq, bytes_eq_refl, length, ◌==◌, All, arith,
}
use pal_panel_host_wine.Gvas.Value.{Value, end, array, items, get, put}
use pal_panel_host_wine.Gvas.Parts.{byte_int}
use pal_panel_host_wine.Gvas.Header.Encode.{Source, encode_header, IsValid}
use pal_panel_host_wine.Gvas.Reader.{ok}
use pal_panel_host_wine.Gvas.Decode.{File, read_file, byte_of_int}
use pal_panel_host_wine.Gvas.Decode.Encode.{
  Tree, none_left, str_prop, struct_prop, struct_fields, bytes_prop, encode, value_of, bytes_value,
  IsTree,
}
use pal_panel_host_wine.Gvas.Decode.RoundTrip.{read_file-encode}
use pal_panel_host_wine.Indexer.Values.{
  Go, has_key, unwrap_within, unwrap, raw_map, as_map, get_field, string_of, as_string, int_of,
  as_int_default, as_int, list_of, bytes_of_items, id_or, container_id_from_any, bytes_from_any,
}
use pal_panel_host_wine.Indexer.Fuel.{container_id_from_any_lem, bytes_from_any_lem}

-- An id below structs named "ContainerId" with the GUIDs.
unfoldable pub nested : List Bytes → Bytes → Tree
nested [] id = str_prop (codes "ID") id none_left
nested (g ∷ gs) id = struct_prop (codes "ContainerId") g (nested gs id) none_left

abbrev map_of : List Bytes → Bytes → Value
map_of gs id = Value.obj (value_of (nested gs id) end)

unwrap_within-map_of :
    (n : ℕ) (gs : List Bytes) (id : Bytes) → unwrap_within n (map_of gs id) ≡ map_of gs id
unfolding unwrap_within nested value_of put has_key bytes_eq
unwrap_within-map_of zero gs id = refl
unwrap_within-map_of (suc n) [] id = refl
unwrap_within-map_of (suc n) (g ∷ gs) id = refl

unwrap-struct_fields :
    (g : Bytes) (gs : List Bytes) (id : Bytes)
    → unwrap (Value.obj (struct_fields g (value_of (nested gs id) end))) ≡ map_of gs id
unfolding unwrap unwrap_within has_key get bytes_eq
unwrap-struct_fields g gs id = unwrap_within-map_of 11 gs id

module _ (go : Go) where
  items_of_bytes :
      (b : Bytes) → All (λ x. x < 256) b → bytes_of_items go (list_of (items (map byte_int b))) ≡ b
  unfolding bytes_of_items list_of as_int as_int_default unwrap unwrap_within int_of byte_of_int
  items_of_bytes [] h = refl
  items_of_bytes (x ∷ b) (lt, h) =
      ap (λ y. y ∷ bytes_of_items go (list_of (items (map byte_int b)))) (omega (arith, lt))
      ∙ ap (λ r. x ∷ r) (items_of_bytes b h)

  values_of_bytes :
      (b : Bytes) → All (λ x. x < 256) b → bytes_from_any go (array (map byte_int b)) ≡ b
  values_of_bytes b h =
      bytes_from_any_lem go (array (map byte_int b))
      ∙ (unfold unwrap unwrap_within in items_of_bytes b h)

  bytes_from_any-bytes_value :
      (b : Bytes) → All (λ x. x < 256) b → bytes_from_any go (Value.obj (bytes_value b)) ≡ b
  bytes_from_any-bytes_value b h =
      bytes_from_any_lem go (Value.obj (bytes_value b))
      ∙ (unfold unwrap unwrap_within has_key get bytes_eq in values_of_bytes b h)

  IsTree-bytes : (n b : Bytes) → IsTree [] (bytes_prop n b none_left) → All (λ x. x < 256) b
  unfolding IsTree
  IsTree-bytes n b h = h.2

  -- Bytes come through from the file to the indexer: if a valid header, a valid byte-array
  -- property and any bytes behind are written to a file, then `Read` reads the file, and
  -- `bytesFromAny` of the property reads exactly the bytes written.
  pub bytes_from_any-read_file :
      (s : Source) (n b trailer : Bytes)
      → IsValid s
      → IsTree [] (bytes_prop n b none_left)
      → (f : File) × (read_file go.host
            (encode_header s ++ (encode (bytes_prop n b none_left) ++ trailer))
          ≡ ok f)
        × (bytes_from_any go (get n f.properties) ≡ b)
  unfolding value_of put
  bytes_from_any-read_file s n b trailer v h = (
    _,
    read_file-encode go.host s (bytes_prop n b none_left) trailer v h,
    ap (bytes_from_any go) (found n (Value.obj (bytes_value b)))
        ∙ bytes_from_any-bytes_value b (IsTree-bytes n b h),
  )
    where
      found : (n : Bytes) (v : Value) → get n (put n v end) ≡ v
      found n v = unfold get put in rw (bytes_eq_refl n) refl

  abbrev one_round : Value → Bytes
  one_round v = elim (as_map v) [
    | none ↦ as_string go v
    | some m ↦
        id_or go (as_string go (get_field (Value.obj m) "ID"))
          (container_id_from_any go (get_field (Value.obj m) "ContainerId")) (as_string go v)
  ]

  innermost : (id : Bytes) → (length id == 0) ≡ false → one_round (map_of [] id) ≡ id
  unfolding nested value_of put as_map raw_map unwrap unwrap_within has_key bytes_eq get get_field
      as_string string_of id_or
  innermost id h = rw h refl

  id_or-inner :
      (inner whole : Bytes) → (length inner == 0) ≡ false → id_or go [] inner whole ≡ inner
  unfolding id_or
  id_or-inner inner whole h = rw h refl

  below :
      (g : Bytes) (gs : List Bytes) (id : Bytes)
      → (length id == 0) ≡ false
      → container_id_from_any go (map_of gs id) ≡ id
      → one_round (map_of (g ∷ gs) id) ≡ id
  unfolding nested value_of put as_map raw_map unwrap unwrap_within has_key bytes_eq get get_field
      as_string string_of id_or
  below g gs id h inner =
      let around = ap (container_id_from_any go) (unwrap-struct_fields g gs id) ∙ inner in
      id_or-inner
        (container_id_from_any go
          (unwrap (Value.obj (struct_fields g (value_of (nested gs id) end)))))
        (as_string go (map_of (g ∷ gs) id)) (ap (λ w. length w == 0) around ∙ h)
      ∙ around

  container_id_from_any-nested :
      (gs : List Bytes) (id : Bytes)
      → (length id == 0) ≡ false
      → container_id_from_any go (map_of gs id) ≡ id
  container_id_from_any-nested [] id h =
      container_id_from_any_lem go (map_of [] id) ∙ innermost id h
  container_id_from_any-nested (g ∷ gs) id h =
      container_id_from_any_lem go (map_of (g ∷ gs) id)
      ∙ below g gs id h (container_id_from_any-nested gs id h)

  -- An id comes through from the file to the indexer: if a valid header, structs named
  -- `ContainerId` one in the other around a string `ID` that is not empty, as a valid tree, and
  -- any bytes behind are written to a file, then `Read` reads the file, and `containerIDFromAny`
  -- of its properties is the id, however many structs stand around it.
  pub container_id_from_any-read_file :
      (s : Source) (gs : List Bytes) (id trailer : Bytes)
      → IsValid s
      → IsTree [] (nested gs id)
      → (length id == 0) ≡ false
      → (f : File) × (read_file go.host (encode_header s ++ (encode (nested gs id) ++ trailer))
          ≡ ok f)
        × (container_id_from_any go (Value.obj f.properties) ≡ id)
  container_id_from_any-read_file s gs id trailer v t h = (
    _,
    read_file-encode go.host s (nested gs id) trailer v t,
    container_id_from_any-nested gs id h,
  )
