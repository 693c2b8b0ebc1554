-- ===== src/Sav/Inspect.antt =====
-- `Inspect` and `DecodeToGVAS` on the same file.
use pal_panel_host_wine.Prelude.{
  ℕ, ◌≡◌, refl, true, false, Option, none, some, Bytes, bytes_eq, Bool-cases, inl, inr,
}
use pal_panel_host_wine.Sav.{
  Info, Outcome, ok, err, plz, plm, gvas, index, parse_header, with_offset, inspected, inspect,
  Codecs, decode_payload, decode_to_gvas,
}

with_offset-magic : (info : Info) (o : Option ℕ) → (with_offset info o).magic ≡ info.magic
unfolding with_offset
with_offset-magic info none = refl
with_offset-magic info (some i) = refl

inspected_ok :
    (info : Info) (payload : Bytes) (o : Option ℕ)
    → (bytes_eq info.magic plz ≡ false → bytes_eq info.magic plm ≡ true)
    → (inspected (with_offset info o, ok payload)).1 ≡ none
unfolding inspected
inspected_ok info payload o h =
    rw (with_offset-magic info o) (elim (Bool-cases (bytes_eq info.magic plz)) [
      | inl e ↦ rw e refl
      | inr e ↦ rw e (rw (h e) refl)
    ])

module _ (codecs : Codecs) where
  decoded_magic :
      (info : Info) (payload bytes out : Bytes)
      → (decode_payload codecs info (ok payload) bytes).1 ≡ ok out
      → bytes_eq info.magic plz ≡ false
      → bytes_eq info.magic plm ≡ true
  unfolding decode_payload
  decoded_magic info payload bytes out h e = elim (Bool-cases (bytes_eq info.magic plm)) [
    | inl m ↦ m
    | inr m ↦ absurd (refused (rw (e, m) at h))
  ]
    where
      refused : {e : _} → Outcome.err e ≡ ok out → ⊥
      refused h = cc

  decoded_inspected :
      (info : Info) (o : Outcome) (bytes out : Bytes)
      → (decode_payload codecs info o bytes).1 ≡ ok out
      → (inspected (with_offset info (index bytes gvas), o)).1 ≡ none
  decoded_inspected info (ok payload) bytes out h =
      inspected_ok info payload (index bytes gvas) (decoded_magic info payload bytes out h)
  decoded_inspected info (err e) bytes out h = absurd (no_payload h)
    where
      no_payload : (decode_payload codecs info (err e) bytes).1 ≡ ok out → ⊥
      no_payload h = unfold decode_payload in cc

  -- `Inspect` reports no error for a save that `DecodeToGVAS` decodes.
  pub decode_to_gvas-inspect :
      (bytes out : Bytes) → (decode_to_gvas codecs bytes).1 ≡ ok out → (inspect bytes).1 ≡ none
  unfolding decode_to_gvas inspect
  decode_to_gvas-inspect bytes out h =
      decoded_inspected (parse_header bytes).0 (parse_header bytes).1 bytes out h
