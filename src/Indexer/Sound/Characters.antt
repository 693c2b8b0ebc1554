-- ===== src/Indexer/Sound/Characters.antt =====
-- Players and pals refer to guilds that are known.
use pal_panel_host_wine.Prelude.{
  ℕ, ◌+◌, ◌≡◌, inl, inr, true, Option, none, some, List, [], ◌∷◌, ◌++◌, Bytes, length, ◌==◌,
  Bool-cases, for_each-keeps, All-append,
}
use pal_panel_host_wine.Gvas.Value.{Value, Fields}
use pal_panel_host_wine.Indexer.{Guild, Index, Checked, broken, good}
use pal_panel_host_wine.Indexer.Guilds.{MemberGuild}
use pal_panel_host_wine.Indexer.Characters.{
  CharacterEntry, skipped, warned, player, pal, guild_or_zero, guild_by_id, owning_guild, player_of,
  pal_of, character_of, character_with, checked_character, character_in, character_entry,
  add_character, normalize_characters, is_stray,
}
use pal_panel_host_wine.Indexer.Values.{Go, raw_map, as_list, get_field, as_bool, is_empty}
use pal_panel_host_wine.Indexer.Sound.{refers, Sound, Registered, has_pal-append, WorkersIn-weaken}
use pal_panel_host_wine.Indexer.Sound.Guilds.{guild_by_id-Registered}

-- What is added refers to a guild.
abbrev Refers : List Guild → CharacterEntry → Type 0
Refers gs skipped = Unit
Refers gs (warned message) = Unit
Refers gs (player p) = refers gs p.guild_id ≡ true
Refers gs (pal p) = refers gs p.guild_id ≡ true

owning_guild-refers :
    (gs : List Guild) (members by_id : MemberGuild) (uid group_id : Bytes)
    → Registered gs members
    → Registered gs by_id
    → refers gs (owning_guild members by_id uid group_id).id ≡ true
unfolding owning_guild
owning_guild-refers gs members by_id uid group_id r q =
    elim (Bool-cases (length (guild_or_zero (members uid)).id == 0)) [
      | inl no_member ↦ rw no_member (q group_id)
      | inr member ↦ rw member (r uid)
    ]

module _ (go : Go) (gs : List Guild) (members by_id : MemberGuild) (n : ℕ) where
  character_of-Refers :
      (key sp : Fields) (uid group_id : Bytes)
      → Registered gs members
      → Registered gs by_id
      → Refers gs (character_of go members by_id n key sp uid group_id)
  unfolding character_of player_of pal_of
  character_of-Refers key sp uid group_id r q =
      elim (Bool-cases (as_bool go (get_field (Value.obj sp) "IsPlayer"))) [
        | inl is_player ↦ rw is_player (owning_guild-refers gs members by_id uid group_id r q)
        | inr is_pal ↦ elim (Bool-cases (is_stray go sp group_id)) [
          | inl stray ↦ rw is_pal (rw stray tt)
          | inr owned ↦ rw is_pal (rw owned (owning_guild-refers gs members by_id _ group_id r q))
        ]
      ]

  character_with-Refers :
      (key raw sp : Fields)
      → Registered gs members
      → Registered gs by_id
      → Refers gs (character_with go members by_id n key raw sp)
  unfolding character_with
  character_with-Refers key raw sp r q = elim (Bool-cases (is_empty sp)) [
    | inl empty ↦ rw empty tt
    | inr full ↦ rw full (character_of-Refers key sp _ _ r q)
  ]

  checked_character-Refers :
      (key : Fields) (c : Checked)
      → Registered gs members
      → Registered gs by_id
      → Refers gs (checked_character go members by_id n key c)
  unfolding checked_character
  checked_character-Refers key (broken message) r q = tt
  checked_character-Refers key (good raw) r q = character_with-Refers key raw _ r q

  character_in-Refers :
      (entry : Fields)
      → Registered gs members
      → Registered gs by_id
      → Refers gs (character_in go members by_id n entry)
  unfolding character_in
  character_in-Refers entry r q = checked_character-Refers _ _ r q

  character_entry-Refers :
      (v : Value)
      → Registered gs members
      → Registered gs by_id
      → Refers gs (character_entry go members by_id n v)
  unfolding character_entry
  character_entry-Refers v r q = by_map (raw_map v)
    where
      by_map :
          (o : Option Fields)
          → Refers gs
              (elim o [ none ↦ skipped | some entry ↦ character_in go members by_id n entry ])
      by_map none = tt
      by_map (some entry) = character_in-Refers entry r q

add_character-Sound :
    (gs : List Guild) (e : CharacterEntry) (i : Index)
    → Refers gs e
    → Sound gs i
    → Sound gs (add_character e i)
unfolding add_character
add_character-Sound gs skipped i h v = v
add_character-Sound gs (warned message) i h v = v
add_character-Sound gs (player p) i h v = record {
  same = v.same;
  players_refer = All-append (λ p. refers gs p.guild_id ≡ true) i.players p v.players_refer h;
  pals_refer = v.pals_refer;
  workers_exist = v.workers_exist;
  containers_differ = v.containers_differ;
}
add_character-Sound gs (pal p) i h v = record {
  same = v.same;
  players_refer = v.players_refer;
  pals_refer = All-append (λ p. refers gs p.guild_id ≡ true) i.pals p v.pals_refer h;
  workers_exist =
      WorkersIn-weaken i.pals (i.pals ++ p ∷ []) i.bases (λ id h. has_pal-append i.pals p id h)
        v.workers_exist;
  containers_differ = v.containers_differ;
}

pub normalize_characters-Sound :
    (go : Go) (members : MemberGuild) (index : Index) (world : Value)
    → Registered index.guilds members
    → Sound index.guilds index
    → Sound index.guilds (normalize_characters go members index world)
unfolding normalize_characters
normalize_characters-Sound go members index world r v =
    for_each-keeps (Sound index.guilds)
      (λ v i.
        add_character
          (character_entry go members (guild_by_id index.guilds) (length i.pals + length i.players)
            v)
          i)
      (λ v i h.
        add_character-Sound index.guilds _ i
          (character_entry-Refers go index.guilds members (guild_by_id index.guilds)
            (length i.pals + length i.players) v r (guild_by_id-Registered index.guilds))
          h)
      (as_list (get_field world "CharacterSaveParameterMap")) index v
