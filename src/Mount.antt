-- ===== src/Mount.antt =====
-- src/c/mount.c: the resolution of a path over the mount list, the calls of the FAT drivers of the Lisp,
-- and, in Mount/Fat16, the reader of FAT16 files in C.
pub mod Driver
pub mod Matches
pub mod Resolve
pub mod Files
pub mod Transfers
pub mod Stored
pub mod Fat16
mod Runs
use isiki.Prelude.{
  ℕ, zero, suc, ◌+◌, ◌-◌, ◌%◌, ◌^◌, Bool, true, false, ◌&&◌, Option, none, some, List, [], ◌∷◌, ltb,
  ◌==◌, if◌then◌else◌, length, get_or, take, drop, codes,
}

abbrev pub stream_path_max : ℕ
stream_path_max = 256

abbrev pub slash : ℕ
slash = 47

abbrev pub mount_9p_prefix : List ℕ
mount_9p_prefix = codes "/9p"

-- MOUNT_KIND_NONE is the `none` of an Option.
pub data MountKind : Type 0 where
  p9 : MountKind
  fat32 : MountKind
  fat16 : MountKind

-- The symbol of a file system in *MOUNTS*.
pub data FsType : Type 0 where
  fat32_symbol : FsType
  fat16_symbol : FsType
  other_symbol : FsType

abbrev pub kind_of : FsType → Option MountKind
kind_of fat32_symbol = some fat32
kind_of fat16_symbol = some fat16
kind_of other_symbol = none

-- An element of *MOUNTS*, (mount-path . (device . fs-type)); the device is a symbol's word.
pub record Entry : Type 0 where
  pub mount_path : List ℕ
  pub device : ℕ
  pub fs_type : FsType

abbrev pub entry : List ℕ → ℕ → FsType → Entry
entry mount_path device fs_type = record {
  mount_path = mount_path;
  device = device;
  fs_type = fs_type;
}

-- What a C function sees of a buffer: the bytes before the first NUL.
abbrev pub until_nul : List ℕ → List ℕ
until_nul [] = []
until_nul (c ∷ cs) = if c == 0 then [] else c ∷ until_nul cs

-- The string that is written to a buffer of `out_cap` bytes, 1 or more.
unfoldable pub os_string_to_cstr : List ℕ → ℕ → List ℕ
os_string_to_cstr bytes out_cap =
    let len = length bytes % 2 ^ 32 in
    take (if ltb (out_cap - 1) len then out_cap - 1 else len) bytes

-- The end of a match of `i` characters: `first` says that the mount path starts with a slash.
unfoldable pub match_end : ℕ → Bool → List ℕ → Option ℕ
match_end i first [] = some i
match_end i first (c ∷ cs) = if i == 1 && first then some i else if c == slash then some i else none

unfoldable pub match_loop : ℕ → Bool → List ℕ → List ℕ → Option ℕ
unfolding match_end
match_loop i first [] path = match_end i first path
match_loop i first (m ∷ ms) [] = none
match_loop i first (m ∷ ms) (c ∷ cs) =
    let rest = match_loop (suc i) first ms cs in if c == m then rest else none

-- The length of the mount path if it matches; -1 is `none`.
unfoldable pub mount_path_match_len : List ℕ → List ℕ → Option ℕ
unfolding match_loop
mount_path_match_len mount_path path = match_loop 0 (get_or mount_path 0 0 == slash) mount_path path

-- best_len, best_is_root, best_kind and best_device; a device of nil is `none`.
pub record Best : Type 0 where
  pub len : Option ℕ
  pub is_root : Bool
  pub kind : Option MountKind
  pub device : Option ℕ

abbrev pub best : Option ℕ → Bool → Option MountKind → Option ℕ → Best
best len is_root kind device = record { len = len; is_root = is_root; kind = kind; device = device }

abbrev pub is_longer : Option ℕ → Option ℕ → Bool
is_longer none b = false
is_longer (some m) none = true
is_longer (some m) (some n) = ltb n m

-- Whether a path is "/".
abbrev pub is_slash : List ℕ → Bool
is_slash [] = false
is_slash (c ∷ []) = c == slash
is_slash (c ∷ d ∷ cs) = false

unfoldable pub try_path : List ℕ → List ℕ → Option MountKind → Option ℕ → Best → Best
try_path mount_path path kind device b =
    let m = mount_path_match_len mount_path path in
    if is_longer m b.len then best m (is_slash mount_path) kind device else b

-- An entry of another file system is passed over.
unfoldable pub try_kind : List ℕ → Option MountKind → List ℕ → ℕ → Best → Best
try_kind path none mount_path device b = b
try_kind path (some kind) mount_path device b =
    try_path (until_nul (os_string_to_cstr mount_path stream_path_max)) path (some kind)
      (some device) b

unfoldable pub try_entry : List ℕ → Entry → Best → Best
unfolding try_kind
try_entry path e b = try_kind path (kind_of e.fs_type) e.mount_path e.device b

unfoldable pub try_entries : List ℕ → List Entry → Best → Best
try_entries path [] b = b
try_entries path (e ∷ entries) b = try_entries path entries (try_entry path e b)

unfoldable pub try_9p : List ℕ → Best → Best
try_9p path b =
    let p9_len = mount_path_match_len mount_9p_prefix path in
    if is_longer p9_len b.len then best p9_len false (some p9) none else b

pub record Resolved : Type 0 where
  pub kind : MountKind
  pub relative : List ℕ
  pub device : Option ℕ

abbrev pub resolved : MountKind → List ℕ → Option ℕ → Resolved
resolved kind relative device = record { kind = kind; relative = relative; device = device }

abbrev pub or_zero : Option ℕ → ℕ
or_zero none = 0
or_zero (some n) = n

unfoldable pub resolve_best : List ℕ → ℕ → Best → Option Resolved
resolve_best path relative_cap b = elim b.kind [
  | none ↦ none
  | some kind ↦
      let src = if b.is_root then path else drop (or_zero b.len) path in
      some (resolved kind (take (relative_cap - 1) src) b.device)
]

-- `mounts` is *MOUNTS*, and empty where the Lisp part is not loaded.
unfoldable pub os_mount_resolve : List Entry → List ℕ → ℕ → Option Resolved
unfolding try_entries try_9p resolve_best
os_mount_resolve mounts path relative_cap =
    resolve_best path relative_cap
      (try_9p path (try_entries path mounts (best none false none none)))
