-- ===== src/Indexer/Sound/Guilds.antt =====
-- The guilds, and the maps from players and ids to them.
use pal_panel_host_wine.Prelude.{
  ◌≡◌, refl, true, none, some, List, [], ◌∷◌, ◌++◌, Bytes, put_key, for_each, for_each-keeps,
  All-weaken,
}
use pal_panel_host_wine.Gvas.Value.{Value}
use pal_panel_host_wine.Indexer.{Guild, Index, empty_index}
use pal_panel_host_wine.Indexer.Guilds.{
  GuildEntry, skipped, warned, kept, MemberGuild, register, add_guild, guild_entry,
  normalize_guilds,
}
use pal_panel_host_wine.Indexer.Characters.{guild_or_zero, guild_by_id}
use pal_panel_host_wine.Indexer.Values.{Go, as_list, get_field}
use pal_panel_host_wine.Indexer.Sound.{
  refers, Sound, Registered, refers-append, refers-last, refers-first, refers-later,
  put_key-Registered,
}

-- A guild with its members registers only itself.
register-Registered :
    (gs : List Guild) (g : Guild) (m : MemberGuild)
    → refers gs g.id ≡ true
    → Registered gs m
    → Registered gs (register g m)
unfolding register
register-Registered gs g m known r =
    for_each-keeps (Registered gs) (λ x m. put_key x.player_uid (some g) m)
      (λ x m h. put_key-Registered gs m x.player_uid g known h) g.members m r

-- The guilds that are known so far.
abbrev pub Start : Index × MemberGuild → Type 0
Start (index, m) = Sound index.guilds index × Registered index.guilds m

add_guild-Start : (e : GuildEntry) (s : Index × MemberGuild) → Start s → Start (add_guild e s)
unfolding add_guild
add_guild-Start skipped s h = h
add_guild-Start (warned message) (index, m) h = h
add_guild-Start (kept g) (index, m) (v, r) = (
  record {
    same = refl;
    players_refer =
        All-weaken (λ p. refers index.guilds p.guild_id ≡ true)
          (λ p. refers (index.guilds ++ g ∷ []) p.guild_id ≡ true)
          (λ p h. refers-append index.guilds g p.guild_id h) index.players v.players_refer;
    pals_refer =
        All-weaken (λ p. refers index.guilds p.guild_id ≡ true)
          (λ p. refers (index.guilds ++ g ∷ []) p.guild_id ≡ true)
          (λ p h. refers-append index.guilds g p.guild_id h) index.pals v.pals_refer;
    workers_exist = v.workers_exist;
    containers_differ = v.containers_differ;
  },
  register-Registered (index.guilds ++ g ∷ []) g m (refers-last index.guilds g)
      (λ k. refers-append index.guilds g (guild_or_zero (m k)).id (r k)),
)

pub normalize_guilds-Start :
    (go : Go) (world : Value) → Start (normalize_guilds go empty_index world)
unfolding normalize_guilds
normalize_guilds-Start go world =
    for_each-keeps Start (λ v s. add_guild (guild_entry go v) s)
      (λ v s h. add_guild-Start (guild_entry go v) s h)
      (as_list (get_field world "GroupSaveDataMap")) (empty_index, λ uid. none)
      (
        record {
          same = refl;
          players_refer = tt;
          pals_refer = tt;
          workers_exist = tt;
          containers_differ = tt;
        },
        λ k. (unfold refers guild_or_zero in refl),
      )

by_id-Registered :
    (gs all : List Guild) (m : MemberGuild)
    → ((id : Bytes) → refers gs id ≡ true → refers all id ≡ true)
    → Registered all m
    → Registered all (for_each (λ g m. put_key g.id (some g) m) gs m)
unfolding for_each
by_id-Registered [] all m f r = r
by_id-Registered (g ∷ gs) all m f r =
    by_id-Registered gs all (put_key g.id (some g) m) (λ id h. f id (refers-later gs g id h))
      (put_key-Registered all m g.id g (f g.id (refers-first gs g)) r)

pub guild_by_id-Registered : (gs : List Guild) → Registered gs (guild_by_id gs)
unfolding guild_by_id
guild_by_id-Registered gs =
    by_id-Registered gs gs (λ id. none) (λ id h. h) (λ k. (unfold refers guild_or_zero in refl))
