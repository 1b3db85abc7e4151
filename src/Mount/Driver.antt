-- ===== src/Mount/Driver.antt =====
-- What src/c/mount.c calls: the functions of the FAT drivers in the Lisp, by their names. Each may be
-- undefined, and control may leave it.
use isiki.Prelude.{ℕ, Option, List}
use isiki.Stream.Device.{Called}
use isiki.Mount.{MountKind}

pub record FatDriver : Type 1 where
  pub State : Type 0
  pub Handle : Type 0
  -- %DEVICE-HANDLE of a device.
  pub device_handle : State → Option ℕ → State × Called Handle
  -- FAT32-READ-FILE or FAT16-READ-FILE: the words of a vector. A handle of nil is `none` in all of them.
  pub read_file : MountKind → State → Option Handle → List ℕ → State × Called (List ℕ)
  pub write_file : MountKind → State → Option Handle → List ℕ → List ℕ → State × Called (Unit {0})
  pub create_file : MountKind → State → Option Handle → List ℕ → List ℕ → State × Called (Unit {0})
  -- A node's word.
  pub resolve_node : MountKind → State → Option Handle → List ℕ → State × Called ℕ
  -- A fixnum's word.
  pub file_size : MountKind → State → Option Handle → List ℕ → State × Called ℕ
