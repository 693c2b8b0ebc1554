-- ===== src/Indexer/Named.antt =====
-- The guilds of the index have an id.
use pal_panel_host_wine.Prelude.{
  ◌≡◌, sym, inl, inr, false, Option, none, some, List, Bytes, codes, bytes_eq, length, ◌==◌,
  Bool-cases, for_each-keeps, All, All-append,
}
use mathlib.Core.Path.{subst}
use pal_panel_host_wine.Gvas.Value.{Value, Fields, get}
use pal_panel_host_wine.Gvas.Group.{guild}
use pal_panel_host_wine.Indexer.{Guild, Index, Checked, broken, good, empty_index}
use pal_panel_host_wine.Indexer.Guilds.{
  GuildEntry, skipped, warned, kept, MemberGuild, guild_of, guild_unless_unnamed, checked_guild,
  guild_value, guild_entry, add_guild, normalize_guilds,
}
use pal_panel_host_wine.Indexer.Normalize.{normalize_world, normalize}
use pal_panel_host_wine.Indexer.Values.{Go, raw_map, as_string, fields_of, get_field, as_list}
use pal_panel_host_wine.Indexer.Sound.Guilds.{normalize_guilds-Start}
use pal_panel_host_wine.Indexer.Sound.Whole.{normalize_rest-Sound}

abbrev Named : List Guild → Type 0
Named gs = All (λ g. (length g.id == 0) ≡ false) gs

-- The guild that is kept, if one is, has an id.
abbrev Fits : GuildEntry → Type 0
Fits skipped = Unit
Fits (warned message) = Unit
Fits (kept g) = (length g.id == 0) ≡ false

module _ (go : Go) where
  guild_unless_unnamed-Fits : (raw : Fields) (gid : Bytes) → Fits (guild_unless_unnamed go raw gid)
  unfolding guild_unless_unnamed guild_of
  guild_unless_unnamed-Fits raw gid = elim (Bool-cases (length gid == 0)) [
    | inl unnamed ↦ rw unnamed tt
    | inr named ↦ rw named named
  ]

  checked_guild-Fits : (entry : Fields) (c : Checked) → Fits (checked_guild go entry c)
  unfolding checked_guild
  checked_guild-Fits entry (broken message) = tt
  checked_guild-Fits entry (good raw) = guild_unless_unnamed-Fits raw _

  guild_value-Fits : (entry : Fields) (value : Value) → Fits (guild_value go entry value)
  unfolding guild_value
  guild_value-Fits entry value =
      elim (Bool-cases (bytes_eq (as_string go (get_field value "GroupType")) (codes guild))) [
        | inl group ↦ rw group (checked_guild-Fits entry _)
        | inr other ↦ rw other tt
      ]

  guild_entry-Fits : (v : Value) → Fits (guild_entry go v)
  unfolding guild_entry
  guild_entry-Fits v = by_map (raw_map v)
    where
      by_map :
          (o : Option Fields)
          → Fits (elim o [
            | none ↦ skipped
            | some entry ↦ guild_value go entry (Value.obj (fields_of (get (codes "value") entry)))
          ])
      by_map none = tt
      by_map (some entry) = guild_value-Fits entry _

  add_guild-Named :
      (e : GuildEntry) (s : Index × MemberGuild)
      → Fits e
      → Named s.0.guilds
      → Named (add_guild e s).0.guilds
  unfolding add_guild
  add_guild-Named skipped s f h = h
  add_guild-Named (warned message) (index, m) f h = h
  add_guild-Named (kept g) (index, m) f h =
      All-append (λ g. (length g.id == 0) ≡ false) index.guilds g h f

  normalize_guilds-Named : (world : Value) → Named (normalize_guilds go empty_index world).0.guilds
  unfolding normalize_guilds
  normalize_guilds-Named world =
      for_each-keeps (λ s. Named s.0.guilds) (λ v s. add_guild (guild_entry go v) s)
        (λ v s h. add_guild-Named (guild_entry go v) s (guild_entry-Fits v) h)
        (as_list (get_field world "GroupSaveDataMap")) (empty_index, λ uid. none) tt

  normalize_world-Named : (o : Option Fields) → Named (normalize_world go o).guilds
  unfolding normalize_world
  normalize_world-Named none = tt
  normalize_world-Named (some world) =
      let s = normalize_guilds go empty_index (Value.obj world) in
      subst Named
        (sym
          (normalize_rest-Sound go (Value.obj world) s
            (normalize_guilds-Start go (Value.obj world))).same)
        (normalize_guilds-Named (Value.obj world))

  -- Whatever the decoded tree, every guild of the index that `Normalize` returns has an id that is
  -- not empty.
  pub guilds_named :
      (properties : Fields) → All (λ g. (length g.id == 0) ≡ false) (normalize go properties).guilds
  unfolding normalize
  guilds_named properties = normalize_world-Named _
