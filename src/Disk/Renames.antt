-- ===== src/Disk/Renames.antt =====
-- pkg/bootc/bootc_disk.go: the events of `Install` that rename a file.
use podman_bootc.Base.{◌≡◌}
use podman_bootc.Disk.{BootcDisk, DiskImageConfig}
use podman_bootc.Disk.Install.{disk_path}
use podman_bootc.Disk.Published.{IsComplete}
use podman_bootc.World.Calls.{System, Action, Event, acted, Trace, rename}

abbrev PublishedAction : System → Trace → Action → Type 0
PublishedAction sys t (rename name path) =
    (p : BootcDisk) × (config : DiskImageConfig) × (path ≡ disk_path p)
    × IsComplete sys p config name t
PublishedAction sys t _ = Unit

-- A file is renamed only to a disk, and at the end of a history that completed it for this disk.
abbrev pub IsPublished : System → Trace → Event → Type 0
IsPublished sys t (acted c r) = PublishedAction sys t c
IsPublished sys t _ = Unit

abbrev IsNoRenameAction : Action → Type 0
IsNoRenameAction (rename name path) = ⊥
IsNoRenameAction _ = Unit

abbrev IsNoRename : Event → Type 0
IsNoRename (acted c r) = IsNoRenameAction c
IsNoRename _ = Unit
