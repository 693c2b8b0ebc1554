-- ===== src/Gvas/Hints.antt =====
-- sav-cli/internal/gvas/properties.go: the types of the structs in maps, by path.
use pal_panel_host_wine.Prelude.{List, [], ◌∷◌, String, Bytes, codes, bytes_eq, if◌then◌else◌}
use pal_panel_host_wine.Gvas.Value.{choose}

-- The map `typeHints`.
abbrev pub type_hints : List (String × String)
type_hints =
    (".worldSaveData.CharacterContainerSaveData.Key", "StructProperty")
    ∷ (".worldSaveData.CharacterSaveParameterMap.Key", "StructProperty")
    ∷ (".worldSaveData.CharacterSaveParameterMap.Value", "StructProperty")
    ∷ (".worldSaveData.FoliageGridSaveDataMap.Key", "StructProperty")
    ∷ (".worldSaveData.FoliageGridSaveDataMap.Value.ModelMap.Value", "StructProperty")
    ∷ (
      ".worldSaveData.FoliageGridSaveDataMap.Value.ModelMap.Value.InstanceDataMap.Key",
      "StructProperty",
    )
    ∷ (
      ".worldSaveData.FoliageGridSaveDataMap.Value.ModelMap.Value.InstanceDataMap.Value",
      "StructProperty",
    )
    ∷ (".worldSaveData.FoliageGridSaveDataMap.Value", "StructProperty")
    ∷ (".worldSaveData.ItemContainerSaveData.Key", "StructProperty")
    ∷ (
      ".worldSaveData.MapObjectSaveData.MapObjectSaveData.ConcreteModel.ModuleMap.Value",
      "StructProperty",
    )
    ∷ (".worldSaveData.MapObjectSaveData.MapObjectSaveData.Model.EffectMap.Value", "StructProperty")
    ∷ (".worldSaveData.MapObjectSpawnerInStageSaveData.Key", "StructProperty")
    ∷ (".worldSaveData.MapObjectSpawnerInStageSaveData.Value", "StructProperty")
    ∷ (
      ".worldSaveData.MapObjectSpawnerInStageSaveData.Value.SpawnerDataMapByLevelObjectInstanceId.Key",
      "Guid",
    )
    ∷ (
      ".worldSaveData.MapObjectSpawnerInStageSaveData.Value.SpawnerDataMapByLevelObjectInstanceId.Value",
      "StructProperty",
    )
    ∷ (
      ".worldSaveData.MapObjectSpawnerInStageSaveData.Value.SpawnerDataMapByLevelObjectInstanceId.Value.ItemMap.Value",
      "StructProperty",
    )
    ∷ (".worldSaveData.WorkSaveData.WorkSaveData.WorkAssignMap.Value", "StructProperty")
    ∷ (".worldSaveData.BaseCampSaveData.Key", "Guid")
    ∷ (".worldSaveData.BaseCampSaveData.Value", "StructProperty")
    ∷ (".worldSaveData.BaseCampSaveData.Value.ModuleMap.Value", "StructProperty")
    ∷ (".worldSaveData.ItemContainerSaveData.Value", "StructProperty")
    ∷ (".worldSaveData.CharacterContainerSaveData.Value", "StructProperty")
    ∷ (".worldSaveData.GroupSaveDataMap.Key", "Guid")
    ∷ (".worldSaveData.GroupSaveDataMap.Value", "StructProperty")
    ∷ (".worldSaveData.EnemyCampSaveData.EnemyCampStatusMap.Value", "StructProperty")
    ∷ (".worldSaveData.InvaderSaveData.Key", "Guid")
    ∷ (".worldSaveData.InvaderSaveData.Value", "StructProperty")
    ∷ (".worldSaveData.OilrigSaveData.OilrigMap.Value", "StructProperty")
    ∷ (".worldSaveData.SupplySaveData.SupplyInfos.Key", "Guid")
    ∷ (".worldSaveData.SupplySaveData.SupplyInfos.Value", "StructProperty")
    ∷ []

unfoldable pub hint_or : Bytes → String → String
hint_or path fallback = choose path type_hints fallback

unfoldable pub struct_hint : Bytes → Bytes → String → Bytes
struct_hint type_name path fallback =
    if bytes_eq type_name (codes "StructProperty") then codes (hint_or path fallback) else []
