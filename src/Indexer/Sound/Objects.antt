-- ===== src/Indexer/Sound/Objects.antt =====
-- Map objects move pals and give containers to bases; what is referred to stays.
use pal_panel_host_wine.Prelude.{
  ℕ, ◌≡◌, refl, ◌∙◌, inl, inr, true, Option, none, some, List, [], ◌∷◌, map, Bytes, bytes_eq,
  has_prefix, codes, length, ltb, ◌==◌, Bool-cases, for_each-keeps, All, All-map, All-modify_at,
  arith,
}
use pal_panel_host_wine.Gvas.Value.{Value, Fields, get}
use pal_panel_host_wine.Gvas.Reader.{Result, ok, err, guid, run}
use pal_panel_host_wine.Indexer.{Coordinates, Guild, Base, Pal, Index}
use pal_panel_host_wine.Indexer.Entities.{is_placed}
use pal_panel_host_wine.Indexer.Objects.{
  add_structure, add_base_container, modify_found, map_object_pal_location_type, move_pal,
  move_pals, own_container, module_with, module_in, module_entry, add_entity, count_structure,
  placed_object, object_with, checked_object, object_in, object_entry, normalize_map_objects,
}
use pal_panel_host_wine.Indexer.Values.{
  Go, raw_map, as_map, fields_of, get_field, canonical_save_id, is_zero_guid, bytes_from_any,
}
use pal_panel_host_wine.Indexer.Sound.{
  refers, has_pal, Distinct, Sound, WorkersIn-weaken, append_unique-Distinct,
}

module _ (go : Go) where
  has_pal-move_pal :
      (container location_type : Bytes) (ps : List Pal) (id : Bytes)
      → has_pal (map (move_pal go container location_type) ps) id ≡ has_pal ps id
  unfolding has_pal move_pal
  has_pal-move_pal container t [] id = refl
  has_pal-move_pal container t (p ∷ ps) id =
      elim (Bool-cases
        (bytes_eq (canonical_save_id go p.container_id) (canonical_save_id go container))) [
          | inl this ↦ rw this (ground (arith, has_pal-move_pal container t ps id))
          | inr other ↦ rw other (ground (arith, has_pal-move_pal container t ps id))
        ]

  move_pal-refers :
      (gs : List Guild) (container location_type : Bytes) (p : Pal)
      → refers gs p.guild_id ≡ true
      → refers gs (move_pal go container location_type p).guild_id ≡ true
  unfolding move_pal
  move_pal-refers gs container t p h =
      elim (Bool-cases
        (bytes_eq (canonical_save_id go p.container_id) (canonical_save_id go container))) [
          | inl this ↦ rw this h
          | inr other ↦ rw other h
        ]

  move_pals-Sound :
      (gs : List Guild) (label container : Bytes) (i : Index)
      → Sound gs i
      → Sound gs (move_pals go label container i)
  unfolding move_pals
  move_pals-Sound gs label container i v =
      let t = map_object_pal_location_type go label in
      elim (Bool-cases (length (map_object_pal_location_type go label) == 0)) [
        | inl stays ↦ rw stays v
        | inr moves ↦ rw moves (record {
          same = v.same;
          players_refer = v.players_refer;
          pals_refer =
              All-map (λ p. refers gs p.guild_id ≡ true) (move_pal go container t)
                (λ p h. move_pal-refers gs container t p h) i.pals v.pals_refer;
          workers_exist =
              WorkersIn-weaken i.pals (map (move_pal go container t) i.pals) i.bases
                (λ id h. has_pal-move_pal container t i.pals id ∙ h) v.workers_exist;
          containers_differ = v.containers_differ;
        })
      ]

All-modify_found {ℓ κ} :
    {A : Type ℓ} (P : A → Type κ) (f : A → A)
    → ((x : A) → P x → P (f x))
    → (o : Option ℕ) (xs : List A) → All P xs
    → All P (modify_found o f xs)
unfolding modify_found
All-modify_found P f keep none xs h = h
All-modify_found P f keep (some i) xs h = All-modify_at P f keep i xs h

-- A change of a base that keeps its workers, and its containers without a double.
modify_found-Sound :
    (gs : List Guild) (base : Option ℕ) (f : Base → Base) (i : Index)
    → ((b : Base) → (f b).workers ≡ b.workers)
    → ((b : Base) → Distinct b.containers → Distinct (f b).containers)
    → Sound gs i
    → Sound gs (record i { bases = modify_found base f i.bases })
modify_found-Sound gs base f i same_workers distinct v = record {
  same = v.same;
  players_refer = v.players_refer;
  pals_refer = v.pals_refer;
  workers_exist =
      All-modify_found (λ b. All (λ w. has_pal i.pals w.instance_id ≡ true) b.workers) f
        (λ b h. rw (same_workers b) h) base i.bases v.workers_exist;
  containers_differ =
      All-modify_found (λ b. Distinct b.containers) f distinct base i.bases v.containers_differ;
}

count_structure-Sound :
    (gs : List Guild) (label : Bytes) (base : Option ℕ) (i : Index)
    → Sound gs i
    → Sound gs (count_structure label base i)
unfolding count_structure add_structure
count_structure-Sound gs label base i v =
    elim (Bool-cases (has_prefix label (codes "PickupItem_"))) [
      | inl dropped ↦ rw dropped v
      | inr built ↦ rw built (modify_found-Sound gs base add_structure i (λ b. refl) (λ b h. h) v)
    ]

add_entity-Sound :
    (gs : List Guild) (id label : Bytes) (c : Coordinates) (i : Index)
    → Sound gs i
    → Sound gs (add_entity id label c i)
unfolding add_entity
add_entity-Sound gs id label c i v = elim (Bool-cases (is_placed c)) [
  | inl placed ↦ rw placed v
  | inr nowhere ↦ rw nowhere v
]

module _ (go : Go) (gs : List Guild) where
  module _ (container_index : Bytes → Option ℕ) (label id : Bytes) (base : Option ℕ) where
    own_container-Sound :
        (container : Bytes) (i : Index)
        → Sound gs i
        → Sound gs (own_container go container_index label id base container i)
    unfolding own_container add_base_container
    own_container-Sound container i v =
        modify_found-Sound gs base (add_base_container container) i (λ b. refl)
          (λ b h. append_unique-Distinct b.containers container h) v

    module_with-Sound :
        (module_type : Bytes) (r : Result Bytes) (i : Index)
        → Sound gs i
        → Sound gs (module_with go container_index label id base module_type r i)
    unfolding module_with
    module_with-Sound t (err e) i v = v
    module_with-Sound t (ok container) i v = elim (Bool-cases (is_zero_guid go container)) [
      | inl zero ↦ rw zero v
      | inr id ↦
          rw id
            (elim (Bool-cases
              (bytes_eq t (codes "EPalMapObjectConcreteModelModuleType::CharacterContainer"))) [
                | inl characters ↦ rw characters (move_pals-Sound go gs label container i v)
                | inr other ↦
                    rw other
                      (elim (Bool-cases (
                        bytes_eq t (codes "EPalMapObjectConcreteModelModuleType::ItemContainer"))) [
                          | inl items ↦ rw items (own_container-Sound container i v)
                          | inr neither ↦ rw neither v
                        ])
              ])
    ]

    module_in-Sound :
        (entry : Fields) (raw : Bytes) (i : Index)
        → Sound gs i
        → Sound gs (module_in go container_index label id base entry raw i)
    unfolding module_in
    module_in-Sound entry raw i v = elim (Bool-cases (ltb (length raw) 16)) [
      | inl short ↦ rw short v
      | inr long ↦ rw long (module_with-Sound _ (run guid raw) i v)
    ]

    module_entry-Sound :
        (v : Value) (i : Index)
        → Sound gs i
        → Sound gs (module_entry go container_index label id base v i)
    unfolding module_entry
    module_entry-Sound v i h = by_map (raw_map v)
      where
        by_map :
            (o : Option Fields)
            → Sound gs (elim o [
              | none ↦ i
              | some entry ↦
                  module_in go container_index label id base entry
                    (bytes_from_any go
                      (get_field (Value.obj (fields_of (get (codes "value") entry))) "RawData"))
                    i
            ])
        by_map none = h
        by_map (some entry) = module_in-Sound entry _ i h

  module _ (container_index base_index : Bytes → Option ℕ) where
    placed_object-Sound :
        (object raw : Fields) (label id : Bytes) (c : Coordinates) (i : Index)
        → Sound gs i
        → Sound gs (placed_object go container_index base_index object raw label id c i)
    unfolding placed_object
    placed_object-Sound object raw label id c i h =
        for_each-keeps (Sound gs) (module_entry go container_index label id _)
          (λ v i h. module_entry-Sound container_index label id _ v i h) _ _
          (count_structure-Sound gs label _ (add_entity id label c i)
            (add_entity-Sound gs id label c i h))

    object_with-Sound :
        (object raw : Fields) (id : Bytes) (i : Index)
        → Sound gs i
        → Sound gs (object_with go container_index base_index object raw id i)
    unfolding object_with
    object_with-Sound object raw id i h = elim (Bool-cases (length id == 0)) [
      | inl nameless ↦ rw nameless h
      | inr named ↦ rw named (placed_object-Sound object raw _ id _ i h)
    ]

    checked_object-Sound :
        (object : Fields) (r : Result Fields) (i : Index)
        → Sound gs i
        → Sound gs (checked_object go container_index base_index object r i)
    unfolding checked_object
    checked_object-Sound object (err e) i h = h
    checked_object-Sound object (ok raw) i h = object_with-Sound object raw _ i h

    object_entry-Sound :
        (v : Value) (i : Index)
        → Sound gs i
        → Sound gs (object_entry go container_index base_index v i)
    unfolding object_entry
    object_entry-Sound v i h = by_map (as_map v)
      where
        by_map :
            (o : Option Fields)
            → Sound gs (elim o [
              | none ↦ i
              | some object ↦ object_in go container_index base_index object i
            ])
        by_map none = h
        by_map (some object) = unfold object_in in checked_object-Sound object _ i h

  pub normalize_map_objects-Sound :
      (i : Index) (world : Value) → Sound gs i → Sound gs (normalize_map_objects go i world)
  unfolding normalize_map_objects
  normalize_map_objects-Sound i world h =
      for_each-keeps (Sound gs) (object_entry go _ _) (λ v i h. object_entry-Sound _ _ v i h) _ i h
