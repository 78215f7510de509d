-- ===== src/Notify/Devices.antt =====
-- leaf/agent/notify/device_registry.go: the registry of paired devices, keyed by name.
pub mod Registry
use edge_sync.Base.{
  ℕ, List, [], ◌∷◌, ◌++◌, Bool, true, false, ite, Option, if◌then◌else◌, Text, text_eq,
}
use edge_sync.Notify.JsonFile.{
  Io, Json, Result, ok, err, ◌>>=◌, name_exists, name_unknown, read_list, commit_list,
}

pub record Device : Type 0 where
  pub name : Text
  pub endpoint_id : Text
  pub paired_at : ℕ

-- The loop of `AddDevice`: the name is taken.
unfoldable pub has_name : Text → List Device → Bool
has_name n [] = false
has_name n (d ∷ ds) = ite (text_eq d.name n) true (has_name n ds)

-- The loop of `RemoveDevice`: `found`, and the devices with another name.
pub without : Text → List Device → Bool × List Device
without n [] = (false, [])
without n (d ∷ ds) =
    let (found, filtered) = without n ds in
    ite (text_eq d.name n) (true, filtered) (found, d ∷ filtered)

module _ (j : Json Device) (io : Io) where
  pub list_devices : Option Text → Result (List Device)
  list_devices file = read_list j io file

  -- The new content of the file.
  pub add_device : Device → Option Text → Result Text
  add_device dev file = do
    devices ← list_devices file
    if has_name dev.name devices then err name_exists else commit_list j io (devices ++ dev ∷ [])

  pub remove_device : Text → Option Text → Result Text
  remove_device n file = do
    devices ← list_devices file
    let (found, filtered) = without n devices
    if found then commit_list j io filtered else err name_unknown
