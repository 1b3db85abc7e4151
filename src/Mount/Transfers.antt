-- ===== src/Mount/Transfers.antt =====
-- Control that leaves a driver of the Lisp, in the calls of src/c/mount.c.
use isiki.Prelude.{
  ℕ, ◌≡◌, refl, sym, ap, ◌∙◌, Bool, true, false, Option, none, some, List, [], ◌∷◌, ◌++◌, All,
  All-append,
}
use mathlib.Core.List.{append_assoc}
use isiki.Stream.Device.{Called, undefined_function, escaped, returned_nil, returned}
use isiki.Mount.{MountKind}
use isiki.Mount.Driver.{FatDriver}
use isiki.Mount.Files.{
  Mounted, done, failed, transferred, bytes_vector, after_call, fail, or_fail,
  os_mount_fat_read_file, create_instead, create_unless_written, os_mount_fat_write_file,
  resolve_again, node_found, create_missing, truncate_found, os_mount_fat_resolve_file_node,
  os_mount_fat_file_size,
}

abbrev pub transfer_in {ℓ} : {A : Type ℓ} → Mounted A → Option ℕ
transfer_in (done a) = none
transfer_in failed = none
transfer_in (transferred t) = some t

-- The entry that a call of a function leaves in a log: the transfer that left it, if one did. A function
-- that is not defined is not called.
abbrev pub entries_of {ℓ} : {A : Type ℓ} → Called A → List (Option ℕ)
entries_of undefined_function = []
entries_of (escaped t) = some t ∷ []
entries_of returned_nil = none ∷ []
entries_of (returned a) = none ∷ []

abbrev pub Quiet : List (Option ℕ) → Type 0
Quiet entries = All (λ e. e ≡ none) entries

-- The last entry, which is in front, is the transfer that is handed out, and no other entry is one; all
-- are quiet if none is handed out.
abbrev pub EndsWith : Option ℕ → List (Option ℕ) → Type 0
EndsWith none entries = Quiet entries
EndsWith (some t) [] = ⊥
EndsWith (some t) (e ∷ entries) = (e ≡ some t) × Quiet entries

EndsWith-append :
    (o : Option ℕ) (later before : List (Option ℕ))
    → EndsWith o later
    → Quiet before
    → EndsWith o (later ++ before)
EndsWith-append none later before h k = All-append (λ e. e ≡ none) later before h k
EndsWith-append (some t) [] before h k = absurd h
EndsWith-append (some t) (e ∷ later) before h k =
    (h.0, All-append (λ e. e ≡ none) later before h.1 k)

module _ (d : FatDriver) (log : d.State → List (Option ℕ)) where
  abbrev pub Logs {ℓ} : {A : Type ℓ} → d.State → d.State × Called A → Type 0
  Logs s r = log r.0 ≡ entries_of r.1 ++ log s

  -- The state of the Lisp has a log of all calls of the drivers.
  pub record LogsCalls : Type 0 where
    pub device_handle : (s : d.State) (v : Option ℕ) → Logs s (d.device_handle s v)
    pub read_file :
        (k : MountKind) (s : d.State) (h : Option d.Handle) (p : List ℕ)
        → Logs s (d.read_file k s h p)
    pub write_file :
        (k : MountKind) (s : d.State) (h : Option d.Handle) (p bytes : List ℕ)
        → Logs s (d.write_file k s h p bytes)
    pub create_file :
        (k : MountKind) (s : d.State) (h : Option d.Handle) (p bytes : List ℕ)
        → Logs s (d.create_file k s h p bytes)
    pub resolve_node :
        (k : MountKind) (s : d.State) (h : Option d.Handle) (p : List ℕ)
        → Logs s (d.resolve_node k s h p)
    pub file_size :
        (k : MountKind) (s : d.State) (h : Option d.Handle) (p : List ℕ)
        → Logs s (d.file_size k s h p)

  -- The calls that were made since `s`, and how they end.
  abbrev pub Reports {ℓ} : {A : Type ℓ} → d.State → d.State × Mounted A → Type 0
  Reports s r =
      (entries : List (Option ℕ)) × (log r.0 ≡ entries ++ log s)
      × EndsWith (transfer_in r.1) entries

  -- A step that reports what it calls.
  abbrev Reporting {κ μ} : {A : Type κ} {B : Type μ} → (d.State → A → d.State × Mounted B) → Type κ
  Reporting {A = A} next = (s : d.State) (a : A) → Reports s (next s a)

  -- What is called behind a call that returned.
  later-Reports {μ} :
      {B : Type μ} (s s' : d.State) (r : d.State × Mounted B)
      → log s' ≡ none ∷ log s
      → Reports s' r
      → Reports s r
  later-Reports s s' r e (entries, f, g) = (
    entries ++ none ∷ [],
    f
        ∙ ap (λ (t : List (Option ℕ)). entries ++ t) e
        ∙ sym (append_assoc entries (none ∷ []) (log s)),
    EndsWith-append (transfer_in r.1) entries (none ∷ []) g (refl, tt),
  )

  after_call-Reports {κ μ} :
      {A : Type κ} {B : Type μ} (s : d.State) (r : d.State × Called A)
      (absent : d.State → d.State × Mounted B) (next : d.State → Option A → d.State × Mounted B)
      → Logs s r
      → ((s' : d.State) → Reports s' (absent s'))
      → Reporting next
      → Reports s (after_call r absent next)
  unfolding after_call
  after_call-Reports s (s', c) absent next logs h k = by_call c logs
    where
      by_call :
          (c' : Called _)
          → log s' ≡ entries_of c' ++ log s
          → Reports s (after_call (s', c') absent next)
      by_call undefined_function e =
          let (entries, f, g) = h s' in
          (entries, f ∙ ap (λ (t : List (Option ℕ)). entries ++ t) e, g)
      by_call (escaped t) e = (some t ∷ [], e, (refl, tt))
      by_call returned_nil e = later-Reports s s' (next s' none) e (k s' none)
      by_call (returned a) e = later-Reports s s' (next s' (some a)) e (k s' (some a))

  or_fail-Reporting {κ μ} :
      {A : Type κ} {B : Type μ} (next : d.State → A → d.State × Mounted B)
      → Reporting next
      → Reporting (or_fail next)
  or_fail-Reporting next h s none = ([], refl, tt)
  or_fail-Reporting next h s (some a) = h s a

  handle-Reports {μ} :
      {B : Type μ} (n : LogsCalls) (device : Option ℕ) (s : d.State)
      (next : d.State → Option d.Handle → d.State × Mounted B)
      → Reporting next
      → Reports s (after_call (d.device_handle s device) fail next)
  handle-Reports n device s next h =
      after_call-Reports s _ _ _ (n.device_handle s device) (λ t. ([], refl, tt)) h

  module _ (n : LogsCalls) (kind : MountKind) (path : List ℕ) where
    module _ (handle : Option d.Handle) where
      create_instead-Reports :
          (bytes : List ℕ) (s : d.State) → Reports s (create_instead d kind handle path bytes s)
      unfolding create_instead
      create_instead-Reports bytes s =
          after_call-Reports s _ _ _ (n.create_file kind s handle path bytes) (λ t. ([], refl, tt))
            (or_fail-Reporting _ (λ s' u. ([], refl, tt)))

      create_unless_written-Reporting :
          (bytes : List ℕ) → Reporting (create_unless_written d kind handle path bytes)
      unfolding create_unless_written
      create_unless_written-Reporting bytes s none = create_instead-Reports bytes s
      create_unless_written-Reporting bytes s (some u) = ([], refl, tt)

      node_found-Reporting : Reporting (node_found d)
      unfolding node_found
      node_found-Reporting s none = ([], refl, tt)
      node_found-Reporting s (some node) = ([], refl, tt)

      resolve_again-Reporting :
          (next : d.State → Option ℕ → d.State × Mounted ℕ)
          → Reporting next
          → Reporting (resolve_again d kind handle path next)
      unfolding resolve_again
      resolve_again-Reporting next h s u =
          after_call-Reports s _ _ _ (n.resolve_node kind s handle path) (λ t. ([], refl, tt)) h

      create_missing-Reporting :
          (create : Bool) → Reporting (create_missing d kind handle path create)
      unfolding create_missing
      create_missing-Reporting true s none =
          after_call-Reports s _ _ _ (n.create_file kind s handle path []) (λ t. ([], refl, tt))
            (or_fail-Reporting _ (resolve_again-Reporting (node_found d) node_found-Reporting))
      create_missing-Reporting false s none = node_found-Reporting s none
      create_missing-Reporting true s (some node) = node_found-Reporting s (some node)
      create_missing-Reporting false s (some node) = node_found-Reporting s (some node)

      truncate_found-Reporting :
          (truncate create : Bool) → Reporting (truncate_found d kind handle path truncate create)
      unfolding truncate_found
      truncate_found-Reporting true create s (some node) =
          after_call-Reports s _ _ _ (n.write_file kind s handle path []) (λ t. ([], refl, tt))
            (or_fail-Reporting _ (resolve_again-Reporting _ (create_missing-Reporting create)))
      truncate_found-Reporting false create s (some node) =
          create_missing-Reporting create s (some node)
      truncate_found-Reporting true create s none = create_missing-Reporting create s none
      truncate_found-Reporting false create s none = create_missing-Reporting create s none

-- Where the Lisp logs every call of a driver's function, each call of src/c/mount.c that works on a file
-- adds its calls to the log in front, and control left at most one of them: the last one, if the call
-- hands out a transfer, which is that one, and none if it hands out a result or a failure. So no transfer
-- is taken for a result, and no function is called after one that control left.
pub calls-Reports :
    (d : FatDriver) (log : d.State → List (Option ℕ))
    → LogsCalls d log
    → (kind : MountKind) (device : Option ℕ) (path bytes : List ℕ) (truncate create : Bool)
      (s : d.State)
    → Reports d log s (os_mount_fat_read_file d kind device path s)
      × Reports d log s (os_mount_fat_write_file d kind device path bytes s)
      × Reports d log s (os_mount_fat_resolve_file_node d kind device path truncate create s)
      × Reports d log s (os_mount_fat_file_size d kind device path s)
unfolding os_mount_fat_read_file os_mount_fat_write_file os_mount_fat_resolve_file_node
    os_mount_fat_file_size
calls-Reports d log n kind device path bytes truncate create s = (
  handle-Reports d log n device s _ (λ s' h.
      after_call-Reports d log s' _ _ _ (n.read_file kind s' h path) (λ t. ([], refl, tt))
        (or_fail-Reporting d log _ (λ t words. ([], refl, tt)))),
  handle-Reports d log n device s _ (λ s' h.
      after_call-Reports d log s' _ _ _ (n.write_file kind s' h path (bytes_vector bytes))
        (create_instead-Reports d log n kind path h (bytes_vector bytes))
        (create_unless_written-Reporting d log n kind path h (bytes_vector bytes))),
  handle-Reports d log n device s _ (λ s' h.
      after_call-Reports d log s' _ _ _ (n.resolve_node kind s' h path) (λ t. ([], refl, tt))
        (truncate_found-Reporting d log n kind path h truncate create)),
  handle-Reports d log n device s _ (λ s' h.
      after_call-Reports d log s' _ _ _ (n.file_size kind s' h path) (λ t. ([], refl, tt))
        (or_fail-Reporting d log _ (λ t word. ([], refl, tt)))),
)
