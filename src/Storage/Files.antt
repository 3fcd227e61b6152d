-- ===== src/Storage/Files.antt =====
-- `atomicWrite`, `recoverTempFiles` and `readFile` of src/storage/leveldb_manager.cpp, call by call
-- of the file system. Which calls fail is an argument; so a run is a function.
use personalblockchain.Prelude.{
  ℕ, Bool, true, false, not, ◌&&◌, ◌||◌, Option, none, some, List, [], ◌∷◌, ◌++◌, Text, take,
  if◌then◌else◌,
}

-- What the three names hold, nothing where there is no such file.
pub record Slot : Type 0 where
  pub file : Option Text
  pub tmp : Option Text
  pub bak : Option Text

-- Which calls of one write fail, in their order: a write that fails leaves a part of the content, the
-- first look for the file reports an error, a backup cannot be cleared, made, looked for (which
-- throws), or renamed back, and what is left over cannot be removed.
pub record Faults : Type 0 where
  pub open_fails : Bool
  pub write_fails : Option ℕ
  pub look_fails : Bool
  pub clear_fails : Bool
  pub backup_fails : Bool
  pub install_fails : Bool
  pub look_throws : Bool
  pub restore_fails : Bool
  pub cleanup_fails : Bool

abbrev pub no_faults : Faults
no_faults = record {
  open_fails = false;
  write_fails = none;
  look_fails = false;
  clear_fails = false;
  backup_fails = false;
  install_fails = false;
  look_throws = false;
  restore_fails = false;
  cleanup_fails = false;
}

-- Which calls of one round of the recovery fail.
pub record RecoveryFaults : Type 0 where
  pub tmp_look_fails : Bool
  pub file_look_fails : Bool
  pub removal_fails : Bool
  pub rename_fails : Bool

-- The two looks and the rename do their work; the removal may fail.
abbrev pub mostly_works : Bool → RecoveryFaults
mostly_works removal_fails = record {
  tmp_look_fails = false;
  file_look_fails = false;
  removal_fails = removal_fails;
  rename_fails = false;
}

abbrev pub exists : Option Text → Bool
exists none = false
exists (some content) = true

-- A run of a call: the result, the slot after it, and the slots that it went through, the first one
-- first. A crash leaves one of them.
pub record Run (A : Type 0) : Type 0 where
  pub result : A
  pub after : Slot
  pub trace : List Slot

abbrev pub M : Type 0 → Type 0
M A = Slot → Run A

abbrev pub pure : {A : Type 0} → A → M A
pure a s = record { result = a; after = s; trace = [] }

infixl 5 ◌>>=◌ ◌>>◌
abbrev pub ◌>>=◌ : {A B : Type 0} → M A → (A → M B) → M B
◌>>=◌ m f s =
    let first = m s in
    let second = f first.result first.after in
    record { result = second.result; after = second.after; trace = first.trace ++ second.trace }

abbrev pub ◌>>◌ : {A B : Type 0} → M A → M B → M B
m >> k = m >>= λ _. k

-- A call that changes the slot.
abbrev pub change : (Slot → Slot) → M (Unit {0})
change f s = record { result = tt; after = f s; trace = f s ∷ [] }

-- `fs::exists(filePath)`
abbrev pub file_exists : M Bool
file_exists s = record { result = exists s.file; after = s; trace = [] }

abbrev pub bak_exists : M Bool
bak_exists s = record { result = exists s.bak; after = s; trace = [] }

-- The stream is opened with `trunc`, and then receives the content; `cut` characters of it may be on
-- the disk on the way.
abbrev write_tmp : ℕ → Text → M (Unit {0})
write_tmp cut content =
    change (λ s. record s { tmp = some [] })
    >> change (λ s. record s { tmp = some (take cut content) })

-- `fs::rename`, of a file that is there.
abbrev backup_file : M (Unit {0})
backup_file = change (λ s. record s { bak = s.file; file = none })

abbrev install_tmp : M (Unit {0})
install_tmp = change (λ s. record s { file = s.tmp; tmp = none })

abbrev restore_bak : M (Unit {0})
restore_bak = change (λ s. record s { file = s.bak; bak = none })

-- `fs::remove`, which may fail.
abbrev remove_bak : Bool → M (Unit {0})
remove_bak fails = if fails then pure tt else change (λ s. record s { bak = none })

abbrev remove_tmp : Bool → M (Unit {0})
remove_tmp fails = if fails then pure tt else change (λ s. record s { tmp = none })

-- The end of a write, from the rename of the temporary file on. Where the look for the backup
-- throws, the outer `catch` removes the temporary file.
unfoldable pub install : Faults → M Bool
install faults =
    if faults.install_fails
    then if faults.look_throws then (do remove_tmp faults.cleanup_fails; pure false) else (do
      kept ← bak_exists
      if kept && not faults.restore_fails then restore_bak else pure tt
      pure false)
    else (do install_tmp; remove_bak faults.cleanup_fails; pure true)

-- The old file becomes the backup, if one is found.
unfoldable pub backup : Faults → M Bool
backup faults = do
  old ← file_exists
  if not old || faults.look_fails then pure true else (do
    remove_bak faults.clear_fails
    if faults.backup_fails then pure false else (do backup_file; pure true))

unfoldable pub atomic_write : Faults → ℕ → Text → M Bool
atomic_write faults cut content =
    if faults.open_fails then pure false else elim faults.write_fails [
      | some n ↦ (do write_tmp n content; pure false)
      | none ↦ (do
        write_tmp cut content
        change (λ s. record s { tmp = some content })
        backed ← backup faults
        if backed then install faults else pure false)
    ]

-- One round of the loop of `recoverTempFiles`.
unfoldable pub recover : RecoveryFaults → Slot → Slot
recover faults s = elim s.tmp [
  | none ↦ s
  | some content ↦
      if faults.tmp_look_fails
      then s
      else if exists s.file && not faults.file_look_fails
      then (if faults.removal_fails then s else record s { tmp = none })
      else if faults.rename_fails
      then s
      else record s { file = some content; tmp = none }
]

unfoldable pub read_file : Slot → Text
read_file s = elim s.file [ none ↦ [] | some content ↦ content ]
