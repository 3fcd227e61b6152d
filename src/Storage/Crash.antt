-- ===== src/Storage/Crash.antt =====
-- What `atomicWrite` of src/storage/leveldb_manager.cpp leaves behind when a call fails or the
-- process ends in the middle, and what `recoverTempFiles` makes of it.
use personalblockchain.Prelude.{
  ℕ, Bool, ◌||◌, subst, sym, ap, ◌≡◌, refl, ◌⊎◌, inl, inr, true, false, ◌&&◌, Option, none, some,
  List, [], ◌∷◌, Text, take, arith,
}
use personalblockchain.Storage.Files.{
  Slot, Faults, mostly_works, no_faults, atomic_write, backup, install, recover, read_file,
}

abbrev pub All : (Slot → Type 0) → List Slot → Type 0
All P [] = Unit {0}
All P (s ∷ ss) = P s × All P ss

-- The slot is one of the list.
abbrev pub Among : Slot → List Slot → Type 0
Among t [] = ⊥
Among t (s ∷ ss) = (t ≡ s) ⊎ Among t ss

-- After recovery the file holds the one text or the other, whether or not the recovery can remove
-- what is left over.
abbrev Survives : Bool → Text → Text → Slot → Type 0
Survives removal_fails old content s =
    ((recover (mostly_works removal_fails) s).file ≡ some old)
    ⊎ ((recover (mostly_works removal_fails) s).file ≡ some content)

-- The failures that a write with a backup survives: where the new file cannot be installed, the file
-- was found before and the look for its backup does not throw.
abbrev pub IsBearable : Faults → Type 0
IsBearable faults = (faults.install_fails && (faults.look_fails || faults.look_throws)) ≡ false

-- Those after which the file is there for a process that goes on: the backup is renamed back as well.
abbrev pub IsMended : Faults → Type 0
IsMended faults =
    (faults.install_fails && (faults.look_fails || faults.look_throws || faults.restore_fails))
    ≡ false

write_cases :
    (look clear kept installs cleanup : Bool) (shut : Bool) (write : Option ℕ)
    (throws restore : Bool) (b : Bool) (cut : ℕ) (old content : Text) (tmp bak : Option Text)
    → (installs && (look || throws)) ≡ false
    → let faults : Faults = record {
      open_fails = shut;
      write_fails = write;
      look_fails = look;
      clear_fails = clear;
      backup_fails = kept;
      install_fails = installs;
      look_throws = throws;
      restore_fails = restore;
      cleanup_fails = cleanup;
    } in
      let run =
        atomic_write faults cut content (record { file = some old; tmp = tmp; bak = bak }) in
      Survives b old content run.after × All (Survives b old content) run.trace
unfolding atomic_write backup install recover
write_cases true true true true true shut write throws restore b cut old content tmp bak h =
    ground arith
write_cases false true true true true shut write throws restore b cut old content tmp bak h =
    ground arith
write_cases false false false false false shut write throws restore b cut old content tmp bak h =
    ground arith
write_cases _ _ _ _ _ shut write throws restore b cut old content tmp bak h = ground arith

-- A write over a file is safe: wherever the process ends, with whatever part of the content on the
-- disk and whichever bearable calls failed before, after recovery the file holds its old content or
-- the new content, whole.
atomic_write-Survives :
    (b : Bool) (faults : Faults) (cut : ℕ) (old content : Text) (s : Slot)
    → s.file ≡ some old
    → IsBearable faults
    → let run = atomic_write faults cut content s in
      Survives b old content run.after × All (Survives b old content) run.trace
atomic_write-Survives b faults cut old content s e bearable =
    let same : s ≡ record { file = some old; tmp = s.tmp; bak = s.bak } =
      ap (λ f. record { file = f; tmp = s.tmp; bak = s.bak }) e in
    subst
      (λ t.
        let run = atomic_write faults cut content t in
        Survives b old content run.after × All (Survives b old content) run.trace)
      (sym same)
      (write_cases faults.look_fails faults.clear_fails faults.backup_fails faults.install_fails
        faults.cleanup_fails faults.open_fails faults.write_fails faults.look_throws
        faults.restore_fails b cut old content s.tmp s.bak bearable)

-- A write that reports failure has left the old content in place, if its failures are mended.
atomic_write-false :
    (faults : Faults) (cut : ℕ) (old content : Text) (s : Slot)
    → s.file ≡ some old
    → IsMended faults
    → (atomic_write faults cut content s).result ≡ false
    → read_file (atomic_write faults cut content s).after ≡ old
unfolding atomic_write backup install read_file
atomic_write-false faults cut old content s e f h = ground arith

-- The first write of a file is not safe: a process that ends while the temporary file is written
-- leaves a part of the content, and recovery installs that part as the file.
recover-first_write :
    (cut : ℕ) (content : Text) (s : Slot)
    → s.file ≡ none
    → (t : Slot) × Among t (atomic_write no_faults cut content s).trace
      × (read_file (recover (mostly_works false) t) ≡ take cut content)
unfolding atomic_write backup install recover read_file
recover-first_write cut content s e =
    (record s { tmp = some (take cut content) }, inr (inl refl), ground arith)

-- Without failures a write succeeds.
pub atomic_write-no_faults :
    (cut : ℕ) (content : Text) (s : Slot)
    → (atomic_write no_faults cut content s).after
      ≡ record { file = some content; tmp = none; bak = none }
unfolding atomic_write backup install
atomic_write-no_faults cut content s = ground arith

-- A history of one file that was there at the start: writes that report to a running process, and
-- writes in which the process ends and is started again. The list holds what was to be written.
pub data Reach (old : Text) : List Text → Slot → Type 0 where
  starts : (s : Slot) → s.file ≡ some old → Reach old [] s
  writes :
      {contents : List Text} {s : Slot} (faults : Faults) (cut : ℕ) (content : Text)
      → IsMended faults
      → Reach old contents s
      → Reach old (content ∷ contents) (atomic_write faults cut content s).after
  crashes :
      {contents : List Text} {s : Slot} (faults : Faults) (removal_fails : Bool) (cut : ℕ)
      (content : Text) (t : Slot)
      → IsBearable faults
      → Among t (s ∷ (atomic_write faults cut content s).trace)
      → Reach old contents s
      → Reach old (content ∷ contents) (recover (mostly_works removal_fails) t)

file_cases :
    (look clear kept installs cleanup : Bool) (shut : Bool) (write : Option ℕ)
    (throws restore : Bool) (cut : ℕ) (old content : Text) (tmp bak : Option Text)
    → (installs && (look || throws || restore)) ≡ false
    → let faults : Faults = record {
      open_fails = shut;
      write_fails = write;
      look_fails = look;
      clear_fails = clear;
      backup_fails = kept;
      install_fails = installs;
      look_throws = throws;
      restore_fails = restore;
      cleanup_fails = cleanup;
    } in
      let run =
        atomic_write faults cut content (record { file = some old; tmp = tmp; bak = bak }) in
      (run.after.file ≡ some old) ⊎ (run.after.file ≡ some content)
unfolding atomic_write backup install
file_cases true true true true true shut write throws restore cut old content tmp bak h =
    ground arith
file_cases false false false false false shut write throws restore cut old content tmp bak h =
    ground arith
file_cases _ _ _ _ _ shut write throws restore cut old content tmp bak h = ground arith

write-file :
    (faults : Faults) (cut : ℕ) (old content : Text) (s : Slot)
    → s.file ≡ some old
    → IsMended faults
    → let after = (atomic_write faults cut content s).after in
      (after.file ≡ some old) ⊎ (after.file ≡ some content)
write-file faults cut old content s e f =
    let same : s ≡ record { file = some old; tmp = s.tmp; bak = s.bak } =
      ap (λ f. record { file = f; tmp = s.tmp; bak = s.bak }) e in
    subst
      (λ t.
        let run = atomic_write faults cut content t in
        (run.after.file ≡ some old) ⊎ (run.after.file ≡ some content))
      (sym same)
      (file_cases faults.look_fails faults.clear_fails faults.backup_fails faults.install_fails
        faults.cleanup_fails faults.open_fails faults.write_fails faults.look_throws
        faults.restore_fails cut old content s.tmp s.bak f)

All-Among : (P : Slot → Type 0) (t : Slot) (ss : List Slot) → All P ss → Among t ss → P t
All-Among P t [] h m = elim m [ ]
All-Among P t (s ∷ ss) h (inl e) = subst P (sym e) (h.0)
All-Among P t (s ∷ ss) h (inr m) = All-Among P t ss h.1 m

pub recover-Survives :
    (b : Bool) (faults : Faults) (cut : ℕ) (old content : Text) (s t : Slot)
    → s.file ≡ some old
    → IsBearable faults
    → Among t (s ∷ (atomic_write faults cut content s).trace)
    → Survives b old content t
unfolding recover
recover-Survives b faults cut old content s t e bearable (inl same) = inl (rw same (ground arith))
recover-Survives b faults cut old content s t e bearable (inr later) =
    All-Among (Survives b old content) t (atomic_write faults cut content s).trace
      (atomic_write-Survives b faults cut old content s e bearable).1 later

-- The content is one of the old one and those that were to be written.
abbrev pub Written : Text → List Text → Text → Type 0
Written old [] c = c ≡ old
Written old (content ∷ contents) c = (c ≡ content) ⊎ Written old contents c

kept_or_new :
    (old : Text) (contents : List Text) (content c : Text) (file : Option Text)
    → Written old contents c
    → (file ≡ some c) ⊎ (file ≡ some content)
    → (d : Text) × (file ≡ some d) × Written old (content ∷ contents) d
kept_or_new old contents content c file w (inl e) = (c, e, inr w)
kept_or_new old contents content c file w (inr e) = (content, e, inl refl)

-- After any history of writes, failures and restarts of a file that was there at the start, it is
-- there, and holds the old content or one that was to be written, whole, provided that in no write
-- that fails to install the new file the first look for the file reports an error or the look for
-- the backup throws, that the backup is renamed back where such a process goes on, and that in the
-- recovery nothing but the removal of a temporary file fails.
pub Reach-Written :
    {old : Text} {contents : List Text} {s : Slot}
    → Reach old contents s
    → (c : Text) × (s.file ≡ some c) × Written old contents c
Reach-Written {old} (starts s e) = (old, e, refl)
Reach-Written {old} (writes {contents} {s} faults cut content f r) =
    let (c, e, w) = Reach-Written r in
    kept_or_new old contents content c _ w (write-file faults cut c content s e f)
Reach-Written {old} (crashes {contents} {s} faults removal_fails cut content t bearable m r) =
    let (c, e, w) = Reach-Written r in
    kept_or_new old contents content c _ w
      (recover-Survives removal_fails faults cut c content s t e bearable m)
