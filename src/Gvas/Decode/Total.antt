-- ===== src/Gvas/Decode/Total.antt =====
-- The recursion of the decoder ends on every input, and stays inside the data.
use pal_panel_host_wine.Prelude.{
  ℕ, zero, suc, ◌-◌, ◌≤◌, [], ◌∷◌, Bytes, bytes_eq, length, arith, leb,
}
use pal_panel_host_wine.Gvas.Value.{
  Value, Fields, end, AllObj, AllObj-put, IsProper, out_of_fuel, unexpected_eof,
}
use pal_panel_host_wine.Gvas.Reader.{Reader, Result, ok, err, M, run, result, new_reader}
use native.Mathlib.Nat.{le_refl}
use pal_panel_host_wine.Gvas.Reader.Good.{
  Outcome, Good, Good-pure, Good-fail, Good-if, Good-bind, Good-then, Good-before, Good-bind_eats,
  Good-bind_less, Good-bind_stuck, Good-weaken, good_rules, at_eof-Good, get_remaining-Good,
  byte-Good, fstring-Good, u64-Good, guid-Good,
}
use pal_panel_host_wine.Gvas.Reader.Weighs.{
  Returns, Returns-pure, Returns-fail, Returns-if, Returns-bind, Good-bind_paid,
}
use pal_panel_host_wine.Gvas.Parts.Good.{with_trailing-Good, transform-Good}
use pal_panel_host_wine.Gvas.Slots.{base_camp, decode_base_camp_raw}
use pal_panel_host_wine.Gvas.Properties.Good.{plain_property-Good}
use pal_panel_host_wine.Gvas.Header.Good.{read_header-Good}
use pal_panel_host_wine.Gvas.Decode.Weight.{plain_property-Weighs}
use pal_panel_host_wine.Gvas.Decode.{
  Host, group_path, character_path, base_camp_path, attach, exhausted, unknown_bytes,
  character_group_id, character, decode_character, byte_array_raw_data, group_save_data_map,
  property, annotate, annotated, properties_from, properties_until_end, file, read_file,
}

unknown_bytes-Good : {n : ℕ} (k : ℕ) → Good n 0 (unknown_bytes k)
unfolding unknown_bytes
unknown_bytes-Good zero = Good-pure []
unknown_bytes-Good (suc k) = Good-bind _ _ at_eof-Good λ done.
    Good-if done (Good-pure [])
      (Good-then _ _ byte-Good λ b. Good-bind _ _ (unknown_bytes-Good k) λ vs. Good-pure _)

character_group_id-Good : {n : ℕ} → Good n 0 character_group_id
unfolding character_group_id
character_group_id-Good =
    Good-bind _ _ get_remaining-Good
      λ left. Good-if (leb 16 left) (Good-weaken guid-Good) (Good-pure [])

-- A decoder's outcome on its own reader.
abbrev pub Settled {ℓ} : {A : Type ℓ} → Result A → Type 0
Settled (ok a) = Unit
Settled (err e) = IsProper e

result-Settled {ℓ} :
    {A : Type ℓ} (k : ℕ) (r : Reader) (x : Result (A × Reader)) → Outcome k r x → Settled (result x)
unfolding result
result-Settled k r (ok a) o = tt
result-Settled k r (err e) o = o

run-Settled {ℓ} :
    {A : Type ℓ} {n : ℕ} (k : ℕ) (m : M A) (bytes : Bytes)
    → length bytes ≤ n
    → Good n k m
    → Settled (run m bytes)
unfolding run new_reader
run-Settled k m bytes h g =
    result-Settled k (new_reader bytes) (m (new_reader bytes))
      (g.at (new_reader bytes) (omega arith) (omega arith))

base_camp-Good : {n : ℕ} → Good n 1 base_camp
unfolding base_camp
base_camp-Good =
    Good-bind_eats _ _ guid-Good
      λ id. search (good_rules, transform-Good, with_trailing-Good) depth 20

as_value-Settled :
    (x : Result Fields)
    → Settled x
    → Settled {A = Value} (elim x [ ok fs ↦ ok (Value.obj fs) | err e ↦ err e ])
as_value-Settled (ok fs) h = tt
as_value-Settled (err e) h = h

decode_base_camp_raw-Settled : (bytes : Bytes) → Settled (decode_base_camp_raw bytes)
unfolding decode_base_camp_raw
decode_base_camp_raw-Settled [] = tt
decode_base_camp_raw-Settled (b ∷ bs) =
    as_value-Settled (run base_camp (b ∷ bs))
      (run-Settled 1 base_camp (b ∷ bs) (le_refl (length (b ∷ bs))) base_camp-Good)

module _ (host : Host) where
  attach-Good :
      {n : ℕ} (path bytes : Bytes) (value : Fields) (x : Result Value)
      → Settled x
      → Good n 0 (attach host path bytes value x)
  unfolding attach
  attach-Good path bytes value (ok v) h = Good-pure _
  attach-Good path bytes value (err e) h = Good-if (exhausted e) (Good-fail e h) (Good-pure _)

  annotate-Outcome :
      (p t : Bytes) (r : Reader) (x : Result (Fields × Reader))
      → Outcome 1 r x
      → Outcome 1 r (annotated p t x)
  unfolding annotated
  annotate-Outcome p t r (ok a) o = o
  annotate-Outcome p t r (err e) o = o

  annotate-Good : {n : ℕ} (p t : Bytes) (m : M Fields) → Good n 1 m → Good n 1 (annotate p t m)
  unfolding annotate
  annotate-Good p t m g = record { at = λ r h b. annotate-Outcome p t r (m r) (g.at r h b) }

  module _ (properties : Bytes → M Fields) {n : ℕ} (good : (p : Bytes) → Good n 1 (properties p))
      (maps : (p : Bytes) → Returns AllObj (properties p)) where
    character-Good : Good n 1 (character properties)
    unfolding character
    character-Good = Good-bind_eats _ _ (good []) λ props.
        search (good_rules, unknown_bytes-Good, character_group_id-Good, with_trailing-Good)

    decode_character-Settled :
        (bytes : Bytes) → length bytes ≤ n → Settled (decode_character properties bytes)
    unfolding decode_character
    decode_character-Settled bytes h =
        as_value-Settled (run (character properties) bytes)
          (run-Settled 1 (character properties) bytes h character-Good)

    byte_array_raw_data-Good :
        (t : Bytes) (size : ℕ) (path : Bytes) (decoder : Bytes → Result Value)
        → ((bytes : Bytes) → length bytes ≤ n → Settled (decoder bytes))
        → Good n 1 (byte_array_raw_data host properties t size path decoder)
    unfolding byte_array_raw_data
    byte_array_raw_data-Good t size path decoder settled =
        Good-bind_paid _ _ (plain_property-Good properties good t size path)
          (plain_property-Weighs host properties good maps t size path)
          λ value light. attach-Good path _ value _ (settled _ light)

    group_save_data_map-Good :
        (t : Bytes) (size : ℕ) (path : Bytes)
        → Good n 1 (group_save_data_map host properties t size path)
    unfolding group_save_data_map
    group_save_data_map-Good t size path =
        Good-bind_eats _ _ (plain_property-Good properties good t size path) λ v. Good-pure _

    property-Good :
        (t : Bytes) (size : ℕ) (path : Bytes) → Good n 1 (property host properties t size path)
    unfolding property
    property-Good t size path =
        Good-if (bytes_eq path group_path) (group_save_data_map-Good t size path) (
          Good-if (bytes_eq path character_path)
            (byte_array_raw_data-Good t size path (decode_character properties)
              decode_character-Settled)
            (Good-if (bytes_eq path base_camp_path)
              (byte_array_raw_data-Good t size path decode_base_camp_raw
                λ bytes h. decode_base_camp_raw-Settled bytes)
              (plain_property-Good properties good t size path)))

  properties_from-AllObj :
      (fuel : ℕ) (path : Bytes) (props : Fields)
      → AllObj props
      → Returns AllObj (properties_from host fuel path props)
  unfolding properties_from
  properties_from-AllObj zero path props h = Returns-fail out_of_fuel
  properties_from-AllObj (suc fuel) path props h = Returns-bind _ _ λ done.
      Returns-if done (Returns-fail (unexpected_eof path)) (
        Returns-bind _ _ λ name. Returns-if _ (Returns-pure props h) (
          Returns-bind _ _ λ t. Returns-bind _ _ λ size.
            Returns-bind _ _
              λ prop. properties_from-AllObj fuel path _ (AllObj-put name prop props h)))

  -- A list of properties takes one round of fuel more than there are bytes left.
  pub properties_from-Good :
      (n : ℕ) (path : Bytes) (props : Fields) → Good n 1 (properties_from host (suc n) path props)
  unfolding properties_from
  properties_from-Good zero path props =
      Good-before _ _ at_eof-Good
        λ done. Good-if done (Good-fail (unexpected_eof path) tt) (Good-bind_stuck _ _ fstring-Good)
  properties_from-Good (suc n) path props = Good-before _ _ at_eof-Good λ done.
      Good-if done (Good-fail (unexpected_eof path) tt) (
        Good-bind_less _ _ fstring-Good λ name. Good-if _ (Good-pure props) (
          Good-then _ _ fstring-Good λ t. Good-then _ _ u64-Good λ size.
            Good-then _ _
              (annotate-Good _ t _ (
                property-Good (λ p. properties_from host (suc n) p end)
                  (λ p. properties_from-Good n p end) (λ p. properties_from-AllObj (suc n) p end tt)
                  t size _))
              λ prop. Good-weaken (properties_from-Good n path _)))

  file-Good : (n : ℕ) → Good n 1 (file host n)
  unfolding file properties_until_end
  file-Good n = Good-bind_eats _ _ read_header-Good λ h.
      Good-then _ _ (properties_from-Good n [] end)
        λ props. Good-bind _ _ get_remaining-Good λ left. Good-pure _

  -- From every position in the data, `PropertiesUntilEnd` with fuel for the bytes left either
  -- succeeds, at least one byte on and not past the end of the same data, or fails with one of the
  -- program's own errors.
  pub properties_until_end-Outcome :
      (path : Bytes) (r : Reader)
      → r.pos ≤ length r.bytes
      → Outcome 1 r (properties_until_end host (length r.bytes - r.pos) path r)
  unfolding properties_until_end
  properties_until_end-Outcome path r h =
      (properties_from-Good (length r.bytes - r.pos) path end).at r h (omega arith)

  -- On every input `Read`, with fuel for the length of the input, gives a file or one of the
  -- program's own errors: it never runs out of fuel.
  pub read_file-Settled : (bytes : Bytes) → Settled (read_file host bytes)
  unfolding read_file
  read_file-Settled bytes =
      run-Settled 1 (file host (length bytes)) bytes (le_refl (length bytes))
        (file-Good (length bytes))
