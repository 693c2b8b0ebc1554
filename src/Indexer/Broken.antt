-- ===== src/Indexer/Broken.antt =====
-- A guild of the save whose blob cannot be decoded.
use pal_panel_host_wine.Prelude.{
  ◌≡◌, refl, sym, ap, ◌∙◌, none, some, List, [], ◌∷◌, ◌++◌, Bytes, codes, bytes_eq, for_each,
}
use mathlib.Core.List.{append_assoc, append-nil}
use mathlib.Core.Path.{subst}
use pal_panel_host_wine.Gvas.Value.{Value, Fields, Error, get}
use pal_panel_host_wine.Gvas.Reader.{err}
use pal_panel_host_wine.Gvas.Group.{decode_group_raw}
use pal_panel_host_wine.Indexer.{Index, checked}
use pal_panel_host_wine.Indexer.Guilds.{
  GuildEntry, skipped, warned, kept, MemberGuild, register, checked_guild, guild_value, guild_entry,
  add_guild, normalize_guilds,
}
use pal_panel_host_wine.Indexer.Values.{
  Go, raw_map, fields_of, get_field, as_string, as_list, raw_data_map,
}

for_each-append {ℓ κ} :
    {A : Type ℓ} {S : Type κ} (f : A → S → S) (xs ys : List A) (s : S)
    → for_each f (xs ++ ys) s ≡ for_each f ys (for_each f xs s)
unfolding for_each
for_each-append f [] ys s = refl
for_each-append f (x ∷ xs) ys s = for_each-append f xs ys (f x s)

module _ (go : Go) where
  -- An entry of a guild whose blob gives the error.
  abbrev pub IsBrokenGuild : Value → Error → Type 0
  IsBrokenGuild v e =
      (entry : Fields) × (raw_map v ≡ some entry)
      × (as_string go (get_field (Value.obj (fields_of (get (codes "value") entry))) "GroupType")
          ≡ codes "EPalGroupType::Guild")
      × (raw_data_map go (get_field (Value.obj (fields_of (get (codes "value") entry))) "RawData")
            (λ b. decode_group_raw b (codes "EPalGroupType::Guild"))
          ≡ err e)

  abbrev pub group_warning : Error → Bytes
  group_warning e = codes "group RawData decode failed: " ++ go.host.error_text e

  guild_value-warned :
      (entry : Fields) (value : Value) (e : Error)
      → as_string go (get_field value "GroupType") ≡ codes "EPalGroupType::Guild"
      → raw_data_map go
          (get_field value "RawData")
          (λ b. decode_group_raw b (codes "EPalGroupType::Guild"))
        ≡ err e
      → guild_value go entry value ≡ warned (group_warning e)
  unfolding guild_value checked_guild checked bytes_eq
  guild_value-warned entry value e g r = rw g (rw r refl)

  guild_entry-warned :
      (v : Value) (e : Error) → IsBrokenGuild v e → guild_entry go v ≡ warned (group_warning e)
  unfolding guild_entry raw_map
  guild_entry-warned v e (entry, m, g, r) =
      rw (m, guild_entry)
        (guild_value-warned entry (Value.obj (fields_of (get (codes "value") entry))) e g r)

  -- The first state has one warning more.
  abbrev Apart : Bytes → Index × MemberGuild → Index × MemberGuild → Type 0
  Apart w s t =
      (s.0.guilds ≡ t.0.guilds)
      × (s.1 ≡ t.1)
      × ((before after : List Bytes) × (s.0.warnings ≡ before ++ w ∷ after)
          × (t.0.warnings ≡ before ++ after))

  add_guild-Apart :
      (w : Bytes) (x : GuildEntry) (s t : Index × MemberGuild)
      → Apart w s t
      → Apart w (add_guild x s) (add_guild x t)
  unfolding add_guild
  add_guild-Apart w skipped s t h = h
  add_guild-Apart w (warned m) (i, r) (j, q) (g, e, (before, after, a, b)) = (
    g,
    e,
    (
      before,
      after ++ m ∷ [],
      ap (λ l. l ++ m ∷ []) a ∙ append_assoc before (w ∷ after) (m ∷ []),
      ap (λ l. l ++ m ∷ []) b ∙ append_assoc before after (m ∷ []),
    ),
  )
  add_guild-Apart w (kept x) (i, r) (j, q) (g, e, rest) =
      (ap (λ l. l ++ x ∷ []) g, ap (register x) e, rest)

  loop-Apart :
      (w : Bytes) (vs : List Value) (s t : Index × MemberGuild)
      → Apart w s t
      → Apart w
          (for_each (λ v s. add_guild (guild_entry go v) s) vs s)
          (for_each (λ v s. add_guild (guild_entry go v) s) vs t)
  unfolding for_each
  loop-Apart w [] s t h = h
  loop-Apart w (v ∷ vs) s t h =
      loop-Apart w vs (add_guild (guild_entry go v) s) (add_guild (guild_entry go v) t)
        (add_guild-Apart w (guild_entry go v) s t h)

  warned-Apart : (w : Bytes) (s : Index × MemberGuild) → Apart w (add_guild (warned w) s) s
  unfolding add_guild
  warned-Apart w (i, r) = (refl, refl, (i.warnings, [], refl, sym (append-nil i.warnings)))

  -- If two saves have the same guild entries, but that one of them has an entry of a guild more,
  -- whose blob cannot be decoded, then `normalizeGuilds` gives the same guilds and the same map
  -- from members to guilds for both, and the warnings differ by exactly the warning of the broken
  -- entry, where it stands among the others.
  pub broken_guild_costs_itself :
      (index : Index) (world other : Value) (before after : List Value) (v : Value) (e : Error)
      → as_list (get_field world "GroupSaveDataMap") ≡ before ++ v ∷ after
      → as_list (get_field other "GroupSaveDataMap") ≡ before ++ after
      → IsBrokenGuild v e
      → ((normalize_guilds go index world).0.guilds ≡ (normalize_guilds go index other).0.guilds)
        × ((normalize_guilds go index world).1 ≡ (normalize_guilds go index other).1)
        × ((earlier later : List Bytes) × ((normalize_guilds go index world).0.warnings
              ≡ earlier ++ group_warning e ∷ later)
            × ((normalize_guilds go index other).0.warnings ≡ earlier ++ later))
  unfolding normalize_guilds for_each
  broken_guild_costs_itself index world other before after v e h k b = rw h (
      rw k (
        rw (for_each-append (λ v s. add_guild (guild_entry go v) s) before (v ∷ after) start) (
          rw (for_each-append (λ v s. add_guild (guild_entry go v) s) before after start)
            (apart (for_each (λ v s. add_guild (guild_entry go v) s) before start)))))
    where
      start : Index × MemberGuild
      start = (index, λ uid. none)

      apart :
          (s : Index × MemberGuild)
          → Apart
              (group_warning e)
              (for_each (λ v s. add_guild (guild_entry go v) s) (v ∷ after) s)
              (for_each (λ v s. add_guild (guild_entry go v) s) after s)
      apart s =
          subst
            (λ x.
              Apart (group_warning e)
                (for_each (λ v s. add_guild (guild_entry go v) s) after (add_guild x s))
                (for_each (λ v s. add_guild (guild_entry go v) s) after s))
            (sym (guild_entry-warned v e b))
            (loop-Apart (group_warning e) after (add_guild (warned (group_warning e)) s) s
              (warned-Apart (group_warning e) s))
