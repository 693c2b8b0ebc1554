-- ===== src/Gvas/Reader/Guid.antt =====
-- The printed form of a GUID determines its bytes: two GUIDs never share an id in the index.
use pal_panel_host_wine.Prelude.{
  ℕ, ◌+◌, ◌-◌, ◌*◌, ◌/◌, ◌%◌, ◌<◌, ◌≡◌, ap, sym, ◌∙◌, [], ◌∷◌, Bytes, length, All, ltb,
  if◌then◌else◌, arith,
}
use pal_panel_host_wine.Gvas.Reader.{hex_digit, hex, hexes, format_guid}

-- The byte of two hexadecimal digits.
digit_value : ℕ → ℕ
digit_value c = if ltb c 58 then c - 48 else c - 87

unhex : ℕ → ℕ → ℕ
unhex high low = digit_value high * 16 + digit_value low

digit_value-hex_digit : (d : ℕ) → d < 16 → digit_value (hex_digit d) ≡ d
unfolding digit_value hex_digit
digit_value-hex_digit d h = ground arith

unhex-hex : (b : ℕ) → b < 256 → unhex (hex_digit (b / 16)) (hex_digit (b % 16)) ≡ b
unfolding unhex
unhex-hex b h = omega (
  arith,
  digit_value-hex_digit (b / 16) (omega arith),
  digit_value-hex_digit (b % 16) (omega arith),
)

parse_guid : Bytes → Bytes
parse_guid
      (h3 ∷ l3 ∷ h2 ∷ l2 ∷ h1 ∷ l1 ∷ h0 ∷ l0 ∷ _ ∷ h7 ∷ l7 ∷ h6 ∷ l6 ∷ _ ∷ h5 ∷ l5 ∷ h4 ∷ l4 ∷ _
        ∷ h11 ∷ l11 ∷ h10 ∷ l10 ∷ _ ∷ h9 ∷ l9 ∷ h8 ∷ l8 ∷ h15 ∷ l15 ∷ h14 ∷ l14 ∷ h13 ∷ l13 ∷ h12
        ∷ l12 ∷ []) =
    unhex h0 l0
    ∷ unhex h1 l1
    ∷ unhex h2 l2
    ∷ unhex h3 l3
    ∷ unhex h4 l4
    ∷ unhex h5 l5
    ∷ unhex h6 l6
    ∷ unhex h7 l7
    ∷ unhex h8 l8
    ∷ unhex h9 l9
    ∷ unhex h10 l10
    ∷ unhex h11 l11
    ∷ unhex h12 l12
    ∷ unhex h13 l13
    ∷ unhex h14 l14
    ∷ unhex h15 l15
    ∷ []
parse_guid _ = []

parse_guid-format_guid :
    (b : Bytes) → length b ≡ 16 → All (λ x. x < 256) b → parse_guid (format_guid b) ≡ b
unfolding parse_guid format_guid hexes hex
parse_guid-format_guid
      (b0 ∷ b1 ∷ b2 ∷ b3 ∷ b4 ∷ b5 ∷ b6 ∷ b7 ∷ b8 ∷ b9 ∷ b10 ∷ b11 ∷ b12 ∷ b13 ∷ b14 ∷ b15 ∷ []) n
      h =
    cc (
      unhex-hex b0 h.0,
      unhex-hex b1 h.1.0,
      unhex-hex b2 h.1.1.0,
      unhex-hex b3 h.1.1.1.0,
      unhex-hex b4 h.1.1.1.1.0,
      unhex-hex b5 h.1.1.1.1.1.0,
      unhex-hex b6 h.1.1.1.1.1.1.0,
      unhex-hex b7 h.1.1.1.1.1.1.1.0,
      unhex-hex b8 h.1.1.1.1.1.1.1.1.0,
      unhex-hex b9 h.1.1.1.1.1.1.1.1.1.0,
      unhex-hex b10 h.1.1.1.1.1.1.1.1.1.1.0,
      unhex-hex b11 h.1.1.1.1.1.1.1.1.1.1.1.0,
      unhex-hex b12 h.1.1.1.1.1.1.1.1.1.1.1.1.0,
      unhex-hex b13 h.1.1.1.1.1.1.1.1.1.1.1.1.1.0,
      unhex-hex b14 h.1.1.1.1.1.1.1.1.1.1.1.1.1.1.0,
      unhex-hex b15 h.1.1.1.1.1.1.1.1.1.1.1.1.1.1.1.0,
    )
parse_guid-format_guid _ n h = absurd (omega arith)

-- Two GUIDs of 16 bytes with the same printed form are equal.
pub format_guid-injective :
    (b c : Bytes)
    → length b ≡ 16
    → length c ≡ 16
    → All (λ x. x < 256) b
    → All (λ x. x < 256) c
    → format_guid b ≡ format_guid c
    → b ≡ c
format_guid-injective b c nb nc hb hc e =
    sym (parse_guid-format_guid b nb hb) ∙ ap parse_guid e ∙ parse_guid-format_guid c nc hc
