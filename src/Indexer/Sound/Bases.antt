-- ===== src/Indexer/Sound/Bases.antt =====
-- The workers of a base are indexed pals.
use pal_panel_host_wine.Prelude.{
  ℕ, ◌≡◌, refl, sym, ◌∙◌, inl, inr, true, Option, none, some, List, [], ◌∷◌, ◌++◌, Bytes, bytes_eq,
  bytes_eq_refl, put_key, Bool-cases, for_each, for_each-keeps, for_each_from-keeps, All,
  All-append, arith,
}
use pal_panel_host_wine.Gvas.Value.{Value, Fields}
use pal_panel_host_wine.Gvas.Reader.{Result, ok, err}
use pal_panel_host_wine.Indexer.{Guild, Worker, Base, Pal, Index, Checked, broken, good}
use pal_panel_host_wine.Indexer.Bases.{
  Members, pals_by_instance, move_to_base, character_container_members, worker_of, add_worker,
  base_of, employ, base_with, base_from, checked_base, base_in, base_entry, normalize_bases,
  worker_container_id,
}
use pal_panel_host_wine.Indexer.Values.{Go, raw_map, as_list, get_field, is_empty}
use pal_panel_host_wine.Indexer.Sound.{refers, has_pal, Distinct, Parts, Sound, WorkersIn-weaken}

-- What the map gives for an id is among the pals.
abbrev Listed : List Pal → (Bytes → Option Pal) → Type 0
Listed ps m = (id : Bytes) (p : Pal) → m id ≡ some p → has_pal ps p.instance_id ≡ true

has_pal-move_to_base :
    (i : Bytes) (ps : List Pal) (id : Bytes) → has_pal (move_to_base i ps) id ≡ has_pal ps id
unfolding move_to_base has_pal
has_pal-move_to_base i [] id = refl
has_pal-move_to_base i (p ∷ ps) id = elim (Bool-cases (bytes_eq p.instance_id i)) [
  | inl this ↦ rw this refl
  | inr other ↦ rw other (ground (arith, has_pal-move_to_base i ps id))
]

move_to_base-refers :
    (gs : List Guild) (i : Bytes) (ps : List Pal)
    → All (λ p. refers gs p.guild_id ≡ true) ps
    → All (λ p. refers gs p.guild_id ≡ true) (move_to_base i ps)
unfolding move_to_base
move_to_base-refers gs i [] h = tt
move_to_base-refers gs i (p ∷ ps) (hp, h) = elim (Bool-cases (bytes_eq p.instance_id i)) [
  | inl this ↦ rw this (hp, h)
  | inr other ↦ rw other (hp, move_to_base-refers gs i ps h)
]

put_key-Listed :
    (all : List Pal) (m : Bytes → Option Pal) (p : Pal)
    → has_pal all p.instance_id ≡ true
    → Listed all m
    → Listed all (put_key p.instance_id (some p) m)
unfolding put_key
put_key-Listed all m p known l id q h = elim (Bool-cases (bytes_eq p.instance_id id)) [
  | inl this ↦ let e : some p ≡ some q = rw this at h in let s : p ≡ q = cc in rw (sym s) known
  | inr other ↦ l id q (rw other at h)
]

by_instance-Listed :
    (ps all : List Pal) (m : Bytes → Option Pal)
    → ((id : Bytes) → has_pal ps id ≡ true → has_pal all id ≡ true)
    → Listed all m
    → Listed all (for_each (λ p m. put_key p.instance_id (some p) m) ps m)
unfolding for_each
by_instance-Listed [] all m f l = l
by_instance-Listed (p ∷ ps) all m f l =
    by_instance-Listed ps all (put_key p.instance_id (some p) m)
      (λ id h. f id (unfold has_pal in ground (arith, h)))
      (put_key-Listed all m p
        (f p.instance_id (unfold has_pal in ground (arith, bytes_eq_refl p.instance_id))) l)

pals_by_instance-Listed : (ps : List Pal) → Listed ps (pals_by_instance ps)
unfolding pals_by_instance
pals_by_instance-Listed ps =
    by_instance-Listed ps ps (λ id. none) (λ id h. h) (λ id p h. absurd (cc))

-- The workers so far and the pals, some of which have moved.
record Employed (gs : List Guild) (all : List Pal) (workers : List Worker) (pals : List Pal)
    : Type 0 where
  pub refer : All (λ p. refers gs p.guild_id ≡ true) pals
  pub exist : All (λ w. has_pal all w.instance_id ≡ true) workers
  pub alike : (id : Bytes) → has_pal pals id ≡ has_pal all id

add_worker-Employed :
    (gs : List Guild) (all : List Pal) (m : Bytes → Option Pal) (id : Bytes) (o : Option Pal)
    (s : List Worker × List Pal)
    → m id ≡ o
    → Listed all m
    → Employed gs all s.0 s.1
    → Employed gs all (add_worker o id s).0 (add_worker o id s).1
unfolding add_worker worker_of
add_worker-Employed gs all m id none s e l v = v
add_worker-Employed gs all m id (some p) (workers, pals) e l v = record {
  refer = move_to_base-refers gs id pals v.refer;
  exist =
      All-append (λ w. has_pal all w.instance_id ≡ true) workers (worker_of p) v.exist (l id p e);
  alike = λ k. has_pal-move_to_base id pals k ∙ v.alike k;
}

-- A base with workers among the pals.
add_base :
    (gs : List Guild) (i : Index) (b : Base) (pals : List Pal)
    → Sound gs i
    → Employed gs i.pals b.workers pals
    → Distinct b.containers
    → Parts gs i.guilds i.players pals (i.bases ++ b ∷ [])
add_base gs i b pals v w d = record {
  same = v.same;
  players_refer = v.players_refer;
  pals_refer = w.refer;
  workers_exist =
      WorkersIn-weaken i.pals pals (i.bases ++ b ∷ []) (λ id h. w.alike id ∙ h)
        (All-append (λ b. All (λ w. has_pal i.pals w.instance_id ≡ true) b.workers) i.bases b
          v.workers_exist w.exist);
  containers_differ = All-append (λ b. Distinct b.containers) i.bases b v.containers_differ d;
}

-- The pals that are there keep their ids throughout.
abbrev Keeps : List Guild → List Pal → Index → Type 0
Keeps gs all i = Sound gs i × ((id : Bytes) → has_pal i.pals id ≡ has_pal all id)

no_workers :
    (gs : List Guild) (all : List Pal) (i : Index) (b : Base)
    → b.workers ≡ []
    → Distinct b.containers
    → Keeps gs all i
    → Keeps gs all (record i { bases = i.bases ++ b ∷ [] })
no_workers gs all i b e d (v, k) = (
  add_base gs i b i.pals v (record { refer = v.pals_refer; exist = rw e tt; alike = λ id. refl }) d,
  k,
)

module _ (go : Go) (members : Members) (m : Bytes → Option Pal) (gs : List Guild)
    (all : List Pal) where
  employ-Keeps :
      (b : Base) (container : Bytes) (i : Index)
      → Distinct b.containers
      → Listed all m
      → Keeps gs all i
      → Keeps gs all (employ go members m b container i)
  unfolding employ
  employ-Keeps b container i d l (v, k) =
      let w =
        for_each-keeps (λ s. Employed gs i.pals s.0 s.1) (λ id s. add_worker (m id) id s)
          (λ id s h.
            add_worker-Employed gs i.pals m id (m id) s refl (λ id p e. k p.instance_id ∙ l id p e)
              h)
          (members container) ([], i.pals)
          (record { refer = v.pals_refer; exist = tt; alike = λ id. refl }) in
      (add_base gs i (record b { workers = _ }) _ v w d, λ id. w.alike id ∙ k id)

  base_with-Keeps :
      (b : Base) (r : Result Bytes) (i : Index)
      → b.workers ≡ []
      → Distinct b.containers
      → Listed all m
      → Keeps gs all i
      → Keeps gs all (base_with go members m b r i)
  unfolding base_with
  base_with-Keeps b (err e) i n d l h = no_workers gs all i b n d h
  base_with-Keeps b (ok container) i n d l h = employ-Keeps b container i d l h

  base_from-Keeps :
      (b : Base) (bytes : Bytes) (i : Index)
      → b.workers ≡ []
      → Distinct b.containers
      → Listed all m
      → Keeps gs all i
      → Keeps gs all (base_from go members m b bytes i)
  unfolding base_from
  base_from-Keeps b [] i n d l h = no_workers gs all i b n d h
  base_from-Keeps b (x ∷ xs) i n d l h = base_with-Keeps b (worker_container_id (x ∷ xs)) i n d l h

  checked_base-Keeps :
      (n : ℕ) (entry : Fields) (value : Value) (c : Checked) (i : Index)
      → Listed all m
      → Keeps gs all i
      → Keeps gs all (checked_base go members m n entry value c i)
  unfolding checked_base base_of
  checked_base-Keeps n entry value (broken message) i l h = h
  checked_base-Keeps n entry value (good raw) i l h = elim (Bool-cases (is_empty raw)) [
    | inl empty ↦ rw empty h
    | inr full ↦ rw full (base_from-Keeps (base_of go n entry raw) _ i refl tt l h)
  ]

  base_entry-Keeps :
      (n : ℕ) (v : Value) (i : Index)
      → Listed all m
      → Keeps gs all i
      → Keeps gs all (base_entry go members m n v i)
  unfolding base_entry
  base_entry-Keeps n v i l h = by_map (raw_map v)
    where
      by_map :
          (o : Option Fields)
          → Keeps gs all (elim o [ none ↦ i | some entry ↦ base_in go members m n entry i ])
      by_map none = h
      by_map (some entry) = unfold base_in in checked_base-Keeps n entry _ _ i l h

pub normalize_bases-Sound :
    (go : Go) (gs : List Guild) (index : Index) (world : Value)
    → Sound gs index
    → Sound gs (normalize_bases go index world)
unfolding normalize_bases
normalize_bases-Sound go gs index world v =
    let found = character_container_members go index.warnings world in
    (for_each_from-keeps (Keeps gs index.pals)
      (λ i v s. base_entry go found.1 (pals_by_instance index.pals) i v s)
      (λ i v s h.
        base_entry-Keeps go found.1 (pals_by_instance index.pals) gs index.pals i v s
          (pals_by_instance-Listed index.pals) h)
      0 (as_list (get_field world "BaseCampSaveData")) (record index { warnings = found.0 })
      (v, λ id. refl)).0
