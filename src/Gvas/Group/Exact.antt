-- ===== src/Gvas/Group/Exact.antt =====
-- A current guild layout is accepted only if it spans its blob: with more bytes behind it, it is
-- refused, so no blob has two readings of different lengths under one layout.
use pal_panel_host_wine.Prelude.{
  ℕ, ◌-◌, ◌≤◌, ◌<◌, ◌≡◌, ◌≢◌, refl, ap, ◌∙◌, Bool, [], ◌∷◌, ◌++◌, Bytes, length, length-append,
  arith,
}
use pal_panel_host_wine.Gvas.Value.{Fields, unparsed_bytes}
use pal_panel_host_wine.Gvas.Reader.{
  Result, ok, err, Reader, continue, ◌>>=◌, run, result, new_reader, eof, remaining, at_eof,
  get_remaining,
}
use mathlib.Core.Path.{subst}
use pal_panel_host_wine.Gvas.Reader.Good.{Outcome, Good, good_rules}
use pal_panel_host_wine.Gvas.Parts.Good.{vector-Good}
use pal_panel_host_wine.Gvas.Reader.Stable.{Stable, extend, stable_rules, >>=-eq-ok}
use pal_panel_host_wine.Gvas.Parts.{
  vector, read_guid_any, read_byte_any, read_instance_id, read_guild_player_fields,
  read_guild_player, read_guild_player_with_role, read_guild_marker, read_guild_role_permission,
  read_group_header, require_eof,
}
use pal_panel_host_wine.Gvas.Group.{
  guild_role_tail, guild_plain_tail, current_guild_body, current_guild,
}

vector-Stable : Stable vector
unfolding vector
vector-Stable = search stable_rules depth 10

read_guid_any-Stable : Stable read_guid_any
unfolding read_guid_any
read_guid_any-Stable = search stable_rules

read_byte_any-Stable : Stable read_byte_any
unfolding read_byte_any
read_byte_any-Stable = search stable_rules

read_instance_id-Stable : Stable read_instance_id
unfolding read_instance_id
read_instance_id-Stable = search stable_rules

read_guild_player_fields-Stable : Stable read_guild_player_fields
unfolding read_guild_player_fields
read_guild_player_fields-Stable = search stable_rules

read_guild_player-Stable : Stable read_guild_player
unfolding read_guild_player
read_guild_player-Stable = search (stable_rules, read_guild_player_fields-Stable)

read_guild_player_with_role-Stable : Stable read_guild_player_with_role
unfolding read_guild_player_with_role
read_guild_player_with_role-Stable = search (stable_rules, read_guild_player_fields-Stable)

read_guild_marker-Stable : Stable read_guild_marker
unfolding read_guild_marker
read_guild_marker-Stable = search (stable_rules, vector-Stable) depth 10

read_guild_role_permission-Stable : Stable read_guild_role_permission
unfolding read_guild_role_permission
read_guild_role_permission-Stable = search (stable_rules, read_byte_any-Stable)

read_group_header-Stable : (t : Bytes) → Stable (read_group_header t)
unfolding read_group_header
read_group_header-Stable t = search (stable_rules, read_instance_id-Stable)

guild_role_tail-Stable : (out : Fields) → Stable (guild_role_tail out)
unfolding guild_role_tail
guild_role_tail-Stable out =
    search
      (
        stable_rules, read_byte_any-Stable, read_guild_player_with_role-Stable,
        read_guild_role_permission-Stable,
      )
      depth 12

guild_plain_tail-Stable : (out : Fields) → Stable (guild_plain_tail out)
unfolding guild_plain_tail
guild_plain_tail-Stable out = search (stable_rules, read_guild_player-Stable) depth 10

current_guild_body-Stable : (b : Bool) → Stable (current_guild_body b)
unfolding current_guild_body
current_guild_body-Stable b =
    search
      (
        stable_rules, read_group_header-Stable, read_guid_any-Stable, read_guild_marker-Stable,
        guild_role_tail-Stable, guild_plain_tail-Stable,
      )
      depth 20

-- What `require_eof` has accepted was read to its end.
require_eof-ok :
    (out out' : Fields) (r r' : Reader) → require_eof out r ≡ ok (out', r') → length r.bytes ≤ r.pos
unfolding require_eof ◌>>=◌ at_eof get_remaining eof remaining
require_eof-ok out out' r r' e = ground arith

require_eof-refuses :
    (out : Fields) (r : Reader)
    → r.pos < length r.bytes
    → require_eof out r ≡ err (unparsed_bytes (length r.bytes - r.pos))
unfolding require_eof ◌>>=◌ at_eof get_remaining eof remaining
require_eof-refuses out r h = ground arith

read_guid_any-Good : {n : ℕ} → Good n 0 read_guid_any
unfolding read_guid_any
read_guid_any-Good = search good_rules

read_byte_any-Good : {n : ℕ} → Good n 0 read_byte_any
unfolding read_byte_any
read_byte_any-Good = search good_rules

read_instance_id-Good : {n : ℕ} → Good n 0 read_instance_id
unfolding read_instance_id
read_instance_id-Good = search good_rules

read_guild_player_fields-Good : {n : ℕ} → Good n 0 read_guild_player_fields
unfolding read_guild_player_fields
read_guild_player_fields-Good = search good_rules

read_guild_player-Good : {n : ℕ} → Good n 0 read_guild_player
unfolding read_guild_player
read_guild_player-Good = search (good_rules, read_guild_player_fields-Good)

read_guild_player_with_role-Good : {n : ℕ} → Good n 0 read_guild_player_with_role
unfolding read_guild_player_with_role
read_guild_player_with_role-Good = search (good_rules, read_guild_player_fields-Good)

read_guild_marker-Good : {n : ℕ} → Good n 0 read_guild_marker
unfolding read_guild_marker
read_guild_marker-Good = search (good_rules, vector-Good) depth 10

read_guild_role_permission-Good : {n : ℕ} → Good n 0 read_guild_role_permission
unfolding read_guild_role_permission
read_guild_role_permission-Good = search (good_rules, read_byte_any-Good)

read_group_header-Good : {n : ℕ} (t : Bytes) → Good n 0 (read_group_header t)
unfolding read_group_header
read_group_header-Good t = search (good_rules, read_instance_id-Good)

guild_role_tail-Good : {n : ℕ} (out : Fields) → Good n 0 (guild_role_tail out)
unfolding guild_role_tail
guild_role_tail-Good out =
    search
      (
        good_rules, read_byte_any-Good, read_guild_player_with_role-Good,
        read_guild_role_permission-Good,
      )
      depth 12

guild_plain_tail-Good : {n : ℕ} (out : Fields) → Good n 0 (guild_plain_tail out)
unfolding guild_plain_tail
guild_plain_tail-Good out = search (good_rules, read_guild_player-Good) depth 10

current_guild_body-Good : {n : ℕ} (b : Bool) → Good n 0 (current_guild_body b)
unfolding current_guild_body
current_guild_body-Good b =
    search
      (
        good_rules, read_group_header-Good, read_guid_any-Good, read_guild_marker-Good,
        guild_role_tail-Good, guild_plain_tail-Good,
      )
      depth 20

result-eq-ok {ℓ} :
    {A : Type ℓ} (x : Result (A × Reader)) {a : A}
    → result x ≡ ok a
    → (r : Reader) × (x ≡ ok (a, r))
unfolding result
result-eq-ok (ok (b, r)) e = (r, cc)
result-eq-ok (err e') e = absurd (cc)

Outcome_of {ℓ} :
    {A : Type ℓ} (k : ℕ) (r : Reader) {r' : Reader} {a : A} (x : Result (A × Reader))
    → Outcome k r x
    → x ≡ ok (a, r')
    → Outcome k r (ok (a, r'))
Outcome_of k r x o e = subst (Outcome k r) e o

-- The body read all of `x`, and the check refuses what is left behind it.
refuse_rest :
    (b : Bool) (x y : Bytes) (out : Fields) (r' : Reader)
    → y ≢ []
    → current_guild_body b (new_reader x) ≡ ok (out, r')
    → length r'.bytes ≤ r'.pos
    → (current_guild_body b >>= require_eof) (new_reader (x ++ y)) ≡ err (unparsed_bytes (length y))
unfolding new_reader ◌>>=◌ continue
refuse_rest b x y out r' ne e h =
    let o =
      Outcome_of 0 (new_reader x) (current_guild_body b (new_reader x))
        ((current_guild_body-Good {n = length x} b).at (new_reader x) (omega arith) (omega arith))
        e in
    ap (λ z. continue z require_eof) ((current_guild_body-Stable b).at (new_reader x) y out r' e)
    ∙ require_eof-refuses out (extend r' y) (behind o.2)
    ∙ ap (λ k. err (unparsed_bytes k)) (rest o.2)
  where
    rest : r'.pos ≤ length r'.bytes → length (r'.bytes ++ y) - r'.pos ≡ length y
    rest within = omega (arith, length-append r'.bytes y)

    some_left : (l : Bytes) → l ≢ [] → 0 < length l
    some_left [] n = absurd (n refl)
    some_left (_ ∷ _) n = omega arith

    behind : r'.pos ≤ length r'.bytes → r'.pos < length (r'.bytes ++ y)
    behind within = omega (arith, length-append r'.bytes y, some_left y ne)

-- If a current guild layout accepts `x`, it refuses `x` with more bytes behind it, and says how
-- many: a blob is accepted only if the layout spans it.
pub current_guild_exact :
    (b : Bool) (x y : Bytes) (out : Fields)
    → run (current_guild b) x ≡ ok out
    → y ≢ []
    → run (current_guild b) (x ++ y) ≡ err (unparsed_bytes (length y))
unfolding run current_guild require_eof result
current_guild_exact b x y out e ne =
    let (r, p) = result-eq-ok ((current_guild_body b >>= require_eof) (new_reader x)) e in
    let (o, r', q, s) = >>=-eq-ok (current_guild_body b) require_eof (new_reader x) p in
    ap result (refuse_rest b x y o r' ne q (require_eof-ok o out r' r s))
