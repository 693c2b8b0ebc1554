-- ===== src/Indexer/Guilds.antt =====
-- sav-cli/internal/indexer/normalize.go: `normalizeGuilds`.
use pal_panel_host_wine.Prelude.{
  for_each, Option, none, some, List, [], ◌∷◌, ◌++◌, Bytes, codes, bytes_eq, length, ◌==◌,
  if◌then◌else◌, map, put_key,
}
use pal_panel_host_wine.Gvas.Value.{Value, Fields, get}
use pal_panel_host_wine.Gvas.Group.{guild, decode_group_raw}
use pal_panel_host_wine.Indexer.{Guild, GuildMember, Index, Checked, broken, good, checked}
use pal_panel_host_wine.Indexer.Values.{
  Go, raw_map, as_map, fields_of, get_field, as_list, as_string, as_int64, first_non_empty,
  format_unix_like, raw_data_map,
}

-- What becomes of an entry of the save.
pub data GuildEntry : Type 0 where
  skipped : GuildEntry
  warned : Bytes → GuildEntry
  kept : Guild → GuildEntry

-- The guilds by the uid of their members; a uid without a guild reads as the zero guild.
abbrev pub MemberGuild : Type 0
MemberGuild = Bytes → Option Guild

unfoldable pub register : Guild → MemberGuild → MemberGuild
register g m = for_each (λ x m. put_key x.player_uid (some g) m) g.members m

unfoldable pub add_guild : GuildEntry → Index × MemberGuild → Index × MemberGuild
add_guild skipped s = s
add_guild (warned message) (index, m) =
    (record index { warnings = index.warnings ++ message ∷ [] }, m)
add_guild (kept g) (index, m) = (record index { guilds = index.guilds ++ g ∷ [] }, register g m)

module _ (go : Go) where
  unfoldable pub guild_member : Fields → GuildMember
  guild_member member =
      let info = fields_of (get (codes "player_info") member) in
      record {
        player_uid = as_string go (get (codes "player_uid") member);
        nickname = as_string go (get (codes "player_name") info);
        last_online_time =
            format_unix_like go (as_int64 go (get (codes "last_online_real_time") info));
      }

  unfoldable pub guild_members : List Value → List GuildMember
  guild_members [] = []
  guild_members (v ∷ vs) = elim (as_map v) [
    | none ↦ guild_members vs
    | some m ↦ guild_member m ∷ guild_members vs
  ]

  unfoldable pub guild_of : Fields → Bytes → Guild
  guild_of raw gid = record {
    id = gid;
    name = first_non_empty go (
        as_string go (get (codes "guild_name") raw)
        ∷ as_string go (get (codes "group_name") raw)
        ∷ gid
        ∷ []);
    owner_player_uid = as_string go (get (codes "admin_player_uid") raw);
    members = guild_members (as_list (get (codes "players") raw));
    base_ids = map (as_string go) (as_list (get (codes "base_ids") raw));
    raw = raw;
  }

  unfoldable pub guild_unless_unnamed : Fields → Bytes → GuildEntry
  guild_unless_unnamed raw gid = if length gid == 0 then skipped else kept (guild_of raw gid)

  unfoldable pub checked_guild : Fields → Checked → GuildEntry
  checked_guild entry (broken message) = warned message
  checked_guild entry (good raw) = guild_unless_unnamed raw (
      first_non_empty go
        (as_string go (get (codes "group_id") raw) ∷ as_string go (get (codes "key") entry) ∷ []))

  unfoldable pub guild_value : Fields → Value → GuildEntry
  guild_value entry value =
      let group_type = as_string go (get_field value "GroupType") in
      if bytes_eq group_type (codes guild)
      then checked_guild entry (
          checked go (codes "group")
            (raw_data_map go (get_field value "RawData") (λ b. decode_group_raw b group_type)))
      else skipped

  unfoldable pub guild_entry : Value → GuildEntry
  guild_entry v = elim (raw_map v) [
    | none ↦ skipped
    | some entry ↦ guild_value entry (Value.obj (fields_of (get (codes "value") entry)))
  ]

  unfoldable pub normalize_guilds : Index → Value → Index × MemberGuild
  normalize_guilds index world =
      for_each (λ v s. add_guild (guild_entry v) s) (as_list (get_field world "GroupSaveDataMap"))
        (index, λ uid. none)
