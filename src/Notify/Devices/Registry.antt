-- ===== src/Notify/Devices/Registry.antt =====
-- What the registry holds after an addition or a removal.
use edge_sync.Base.{
  ◌≡◌, ◌≢◌, refl, List, [], ◌∷◌, ◌++◌, true, false, ite, Option, some, Text, text_eq, arith,
}
use edge_sync.Notify.JsonFile.{
  Json, ok, err, ReadsBack, Holds, name_exists, name_unknown, commit_list-Holds, quiet,
}
use edge_sync.Notify.Devices.{Device, has_name, without, list_devices, add_device, remove_device}

-- No two devices share a name.
abbrev pub IsRegistry : List Device → Type 0
IsRegistry [] = Unit {0}
IsRegistry (d ∷ ds) = (has_name d.name ds ≡ false) × IsRegistry ds

has_name-snoc :
    (n : Text) (dev : Device) (ds : List Device)
    → has_name n (ds ++ dev ∷ []) ≡ ite (text_eq dev.name n) true (has_name n ds)
unfolding has_name
has_name-snoc n dev [] = refl
has_name-snoc n dev (d ∷ ds) = ground (arith, has_name-snoc n dev ds)

snoc-IsRegistry :
    (dev : Device) (ds : List Device)
    → has_name dev.name ds ≡ false
    → IsRegistry ds
    → IsRegistry (ds ++ dev ∷ [])
unfolding has_name
snoc-IsRegistry dev [] free r = (refl, tt)
snoc-IsRegistry dev (d ∷ ds) free r =
    (ground (arith, has_name-snoc d.name dev ds), snoc-IsRegistry dev ds (ground arith) r.1)

without_absent : (n : Text) (ds : List Device) → has_name n ds ≡ false → without n ds ≡ (false, ds)
unfolding has_name without
without_absent n [] h = refl
without_absent n (d ∷ ds) h = ground (arith, without_absent n ds)

without-snoc :
    (dev : Device) (ds : List Device)
    → has_name dev.name ds ≡ false
    → without dev.name (ds ++ dev ∷ []) ≡ (true, ds)
unfolding has_name without
without-snoc dev [] h = ground arith
without-snoc dev (d ∷ ds) h = ground (arith, without-snoc dev ds)

has_name-without :
    (n m : Text) (ds : List Device)
    → has_name m (without n ds).1 ≡ ite (text_eq n m) false (has_name m ds)
unfolding has_name without
has_name-without n m [] = ground arith
has_name-without n m (d ∷ ds) = ground (arith, has_name-without n m ds)

without-found : (n : Text) (ds : List Device) → (without n ds).0 ≡ has_name n ds
unfolding has_name without
without-found n [] = refl
without-found n (d ∷ ds) = ground (arith, without-found n ds)

without_hit :
    (n : Text) (d : Device) (ds : List Device)
    → d.name ≡ n
    → (without n (d ∷ ds)).1 ≡ (without n ds).1
unfolding without
without_hit n d ds h = ground arith

without_miss :
    (n : Text) (d : Device) (ds : List Device)
    → d.name ≢ n
    → (without n (d ∷ ds)).1 ≡ d ∷ (without n ds).1
unfolding without
without_miss n d ds h = ground arith

without-IsRegistry : (n : Text) (ds : List Device) → IsRegistry ds → IsRegistry (without n ds).1
without-IsRegistry n [] r = unfold without in tt
without-IsRegistry n (d ∷ ds) r = elim (text_eq d.name n) [
  | yes p ↦ rw (without_hit n d ds p) (without-IsRegistry n ds r.1)
  | no p ↦
      rw (without_miss n d ds p)
        (ground (arith, has_name-without n d.name ds), without-IsRegistry n ds r.1)
]

module _ (j : Json Device) (back : ReadsBack j) (file : Option Text) (ds : List Device)
    (held : Holds j file ds) where
  -- Adding a device with a new name, when neither the read nor the commit fails, appends it, and
  -- names stay distinct; removing it again, in the same conditions, gives the devices as before.
  pub add_device_lem :
      (dev : Device)
      → has_name dev.name ds ≡ false
      → IsRegistry ds
      → (added : Text) × (removed : Text) × (add_device j quiet dev file ≡ ok added)
        × Holds j (some added) (ds ++ dev ∷ [])
        × IsRegistry (ds ++ dev ∷ [])
        × (remove_device j quiet dev.name (some added) ≡ ok removed)
        × Holds j (some removed) ds
  unfolding add_device remove_device list_devices
  add_device_lem dev free r =
      let (added, e, h) = commit_list-Holds j back quiet (ds ++ dev ∷ []) refl in
      let (removed, e', h') = commit_list-Holds j back quiet ds refl in
      (
        added,
        removed,
        rw (held, free) e,
        h,
        snoc-IsRegistry dev ds free r,
        rw (h, without-snoc dev ds free) e',
        h',
      )

  pub remove_device_unknown :
      (n : Text) → has_name n ds ≡ false → remove_device j quiet n file ≡ err name_unknown
  unfolding remove_device list_devices
  remove_device_unknown n absent = rw (held, without-found n ds, absent)

  pub add_device_taken :
      (dev : Device) → has_name dev.name ds ≡ true → add_device j quiet dev file ≡ err name_exists
  unfolding add_device list_devices
  add_device_taken dev taken = rw (held, taken)

  -- Removing a known name, when neither the read nor the commit fails, leaves distinct names: the
  -- removed one is gone and every other name is there exactly if it was.
  pub remove_device_lem :
      (n m : Text)
      → has_name n ds ≡ true
      → IsRegistry ds
      → (t : Text) × (remove_device j quiet n file ≡ ok t)
        × Holds j (some t) (without n ds).1
        × IsRegistry (without n ds).1
        × (has_name m (without n ds).1 ≡ ite (text_eq n m) false (has_name m ds))
  unfolding remove_device list_devices
  remove_device_lem n m known r =
      let (t, e, h) = commit_list-Holds j back quiet (without n ds).1 refl in
      (
        t,
        rw (held, without-found n ds, known) e,
        h,
        without-IsRegistry n ds r,
        has_name-without n m ds,
      )
