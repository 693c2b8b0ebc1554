-- ===== src/Indexer/Sound.antt =====
-- What holds of an index after every step of `Normalize`: what it refers to is there.
pub mod Bases
pub mod Characters
pub mod Guilds
pub mod Objects
pub mod Whole
use pal_panel_host_wine.Prelude.{
  ℕ, ◌≡◌, refl, sym, ap, ◌∙◌, inl, inr, Bool, true, false, ◌||◌, Option, none, some, List, [], ◌∷◌,
  ◌++◌, map, Bytes, bytes_eq, bytes_eq_refl, length, ◌==◌, if◌then◌else◌, put_key, Bool-cases, All,
  All-append, All-weaken, All-map, arith,
}
use pal_panel_host_wine.Indexer.{Player, Guild, Worker, Base, Pal, Index}
use pal_panel_host_wine.Indexer.Guilds.{MemberGuild}
use pal_panel_host_wine.Indexer.Characters.{guild_or_zero}
use pal_panel_host_wine.Indexer.Values.{has_text, append_unique}

unfoldable pub has_guild : List Guild → Bytes → Bool
has_guild [] id = false
has_guild (g ∷ gs) id = bytes_eq g.id id || has_guild gs id

unfoldable pub has_pal : List Pal → Bytes → Bool
has_pal [] id = false
has_pal (p ∷ ps) id = bytes_eq p.instance_id id || has_pal ps id

-- No id, or that of a guild.
unfoldable pub refers : List Guild → Bytes → Bool
refers gs id = length id == 0 || has_guild gs id

-- No text twice.
abbrev pub Distinct : List Bytes → Type 0
Distinct [] = Unit
Distinct (t ∷ ts) = (has_text ts t ≡ false) × Distinct ts

abbrev pub WorkersIn : List Pal → List Base → Type 0
WorkersIn pals bases = All (λ b. All (λ w. has_pal pals w.instance_id ≡ true) b.workers) bases

-- `gs` are the guilds.
pub record Parts (gs guilds : List Guild) (players : List Player) (pals : List Pal)
    (bases : List Base) : Type 0 where
  pub same : guilds ≡ gs
  pub players_refer : All (λ p. refers gs p.guild_id ≡ true) players
  pub pals_refer : All (λ p. refers gs p.guild_id ≡ true) pals
  pub workers_exist : WorkersIn pals bases
  pub containers_differ : All (λ b. Distinct b.containers) bases

abbrev pub Sound : List Guild → Index → Type 0
Sound gs i = Parts gs i.guilds i.players i.pals i.bases

-- Every guild that the map gives is one of the guilds.
abbrev pub Registered : List Guild → MemberGuild → Type 0
Registered gs m = (k : Bytes) → refers gs (guild_or_zero (m k)).id ≡ true

has_guild-append :
    (gs : List Guild) (g : Guild) (id : Bytes)
    → has_guild (gs ++ g ∷ []) id ≡ (has_guild gs id || bytes_eq g.id id)
unfolding has_guild
has_guild-append [] g id = ground arith
has_guild-append (h ∷ gs) g id = ground (arith, has_guild-append gs g id)

pub refers-append :
    (gs : List Guild) (g : Guild) (id : Bytes)
    → refers gs id ≡ true
    → refers (gs ++ g ∷ []) id ≡ true
unfolding refers
refers-append gs g id h = ground (arith, has_guild-append gs g id)

pub refers-last : (gs : List Guild) (g : Guild) → refers (gs ++ g ∷ []) g.id ≡ true
unfolding refers
refers-last gs g = ground (arith, has_guild-append gs g g.id, bytes_eq_refl g.id)

has_guild-later :
    (gs : List Guild) (g : Guild) (id : Bytes)
    → has_guild gs id ≡ true
    → has_guild (g ∷ gs) id ≡ true
unfolding has_guild
has_guild-later gs g id h = ground arith

pub refers-first : (gs : List Guild) (g : Guild) → refers (g ∷ gs) g.id ≡ true
unfolding refers has_guild
refers-first gs g = ground (arith, bytes_eq_refl g.id)

pub refers-later :
    (gs : List Guild) (g : Guild) (id : Bytes) → refers gs id ≡ true → refers (g ∷ gs) id ≡ true
unfolding refers
refers-later gs g id h = ground (arith, has_guild-later gs g id)

pub put_key-Registered :
    (gs : List Guild) (m : MemberGuild) (k : Bytes) (g : Guild)
    → refers gs g.id ≡ true
    → Registered gs m
    → Registered gs (put_key k (some g) m)
unfolding put_key guild_or_zero
put_key-Registered gs m k g known r j = elim (Bool-cases (bytes_eq k j)) [
  | inl same ↦ rw same known
  | inr other ↦ rw other (r j)
]

pub has_pal-append :
    (ps : List Pal) (p : Pal) (id : Bytes) → has_pal ps id ≡ true → has_pal (ps ++ p ∷ []) id ≡ true
unfolding has_pal
has_pal-append [] p id h = ground arith
has_pal-append (q ∷ ps) p id h = ground (arith, has_pal-append ps p id)

-- The workers are still there among other pals with their ids.
pub WorkersIn-weaken :
    (ps qs : List Pal) (bases : List Base)
    → ((id : Bytes) → has_pal ps id ≡ true → has_pal qs id ≡ true)
    → WorkersIn ps bases
    → WorkersIn qs bases
WorkersIn-weaken ps qs bases f h =
    All-weaken (λ b. All (λ w. has_pal ps w.instance_id ≡ true) b.workers)
      (λ b. All (λ w. has_pal qs w.instance_id ≡ true) b.workers)
      (λ b h.
        All-weaken (λ w. has_pal ps w.instance_id ≡ true) (λ w. has_pal qs w.instance_id ≡ true)
          (λ w. f w.instance_id) b.workers h)
      bases h

has_text-append :
    (ts : List Bytes) (s t : Bytes) → has_text (ts ++ s ∷ []) t ≡ (has_text ts t || bytes_eq s t)
unfolding has_text
has_text-append [] s t = ground arith
has_text-append (x ∷ ts) s t = ground (arith, has_text-append ts s t)

bytes_eq_sym : (a b : Bytes) → bytes_eq a b ≡ bytes_eq b a
unfolding bytes_eq
bytes_eq_sym [] [] = refl
bytes_eq_sym [] (y ∷ ys) = refl
bytes_eq_sym (x ∷ xs) [] = refl
bytes_eq_sym (x ∷ xs) (y ∷ ys) = ground (arith, bytes_eq_sym xs ys)

append-Distinct :
    (ts : List Bytes) (s : Bytes) → has_text ts s ≡ false → Distinct ts → Distinct (ts ++ s ∷ [])
unfolding has_text
append-Distinct [] s h d = (refl, tt)
append-Distinct (t ∷ ts) s h (new, d) = (
  ground (arith, has_text-append ts s t, bytes_eq_sym s t),
  append-Distinct ts s (ground arith) d,
)

pub append_unique-Distinct :
    (ts : List Bytes) (s : Bytes) → Distinct ts → Distinct (append_unique ts s)
unfolding append_unique
append_unique-Distinct ts s d = elim (Bool-cases (has_text ts s)) [
  | inl there ↦ rw there d
  | inr new ↦ rw new (append-Distinct ts s new d)
]
