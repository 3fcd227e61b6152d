-- ===== src/Storage/Laws.antt =====
-- What the calls of src/storage/leveldb_manager.cpp keep on a disk on which no call fails: the file
-- stands for the chain that was saved and appended to.
use personalblockchain.Prelude.{
  ap, sym, subst, ◌+◌, ◌%◌, ◌<◌, ◌≡◌, refl, Bool, true, false, Option, none, some, List, [], ◌∷◌,
  ◌++◌, map, Text, is_empty, text_eq_iff, length, last?, ==_iff, u64_mod, arith, lt→ltb,
}
use personalblockchain.Platform.{Platform}
use personalblockchain.Json.{Json, IsLawful, read_all, read_all-append, read_all-last?}
use personalblockchain.Block.{Block}
use personalblockchain.Block.Serial.{to_json, from_json, complete_all, from_json-complete_all}
use personalblockchain.Storage.Files.{no_faults, read_file}
use personalblockchain.Storage.Crash.{atomic_write-no_faults}
use personalblockchain.Storage.Manager.{
  Disk, read_chain, load_chain, write_chain, save_chain, stored_values, extends, append_block,
  has_persisted_chain, file_storage,
}

-- The block is read back as it was written: it has been through `fromJson` before, or was built
-- from parts that have.
abbrev pub IsStable : Platform → Block → Type 0
IsStable P b = complete_all P b ≡ b

abbrev AreStable : Platform → List Block → Type 0
AreStable P [] = Unit {0}
AreStable P (b ∷ bs) = IsStable P b × AreStable P bs

-- The text stands for the chain.
pub record Holds {J : Type 0} (json : Json J) (P : Platform) (raw : Text) (chain : List Block)
    : Type 0 where
  pub value : J
  pub values : List J
  pub long : 2 < length raw
  pub parsed : json.parse raw ≡ some value
  pub listed : json.elements value ≡ some values
  pub read : read_all (from_json json P) values ≡ some chain

-- The chain file holds such a text.
pub record IsStored {J : Type 0} (json : Json J) (P : Platform) (disk : Disk) (chain : List Block)
    : Type 0 where
  pub raw : Text
  pub file : disk.chain.file ≡ some raw
  pub holds : Holds json P raw chain

is_empty-long : (raw : Text) → 2 < length raw → is_empty raw ≡ false
is_empty-long [] h = absurd (omega arith)
is_empty-long (c ∷ raw) h = refl

module _ {J : Type 0} (json : Json J) (P : Platform) (laws : IsLawful json) where
  pub from_json-IsStable : (b : Block) → IsStable P b → from_json json P (to_json json P b) ≡ some b
  from_json-IsStable b h = rw (from_json-complete_all json P b laws, h) refl

  read_all-AreStable :
      (chain : List Block)
      → AreStable P chain
      → read_all (from_json json P) (map (to_json json P) chain) ≡ some chain
  unfolding read_all
  read_all-AreStable [] h = refl
  read_all-AreStable (b ∷ chain) h =
      rw (from_json-IsStable b h.0, read_all-AreStable chain h.1) refl

  -- What is stored is what is loaded.
  pub load_chain-IsStored :
      (disk : Disk) (chain : List Block)
      → IsStored json P disk chain
      → (load_chain json P disk ≡ chain) × (has_persisted_chain json P disk ≡ true)
  unfolding load_chain has_persisted_chain read_file read_chain
  load_chain-IsStored disk chain v =
      let long = is_empty-long v.raw v.holds.long in
      let size = lt→ltb 2 (length v.raw) v.holds.long in
      (
        rw (v.file, long, v.holds.parsed, v.holds.listed, v.holds.read) refl,
        rw (v.file, has_persisted_chain) size,
      )

  dumped-Holds :
      (value : J) (values : List J) (chain : List Block)
      → read_all (from_json json P) (value ∷ values) ≡ some chain
      → Holds json P (json.dump (some 2) (json.array (value ∷ values))) chain
  dumped-Holds value values chain e = record {
    value = json.array (value ∷ values);
    values = value ∷ values;
    long = laws.dump-array (some 2) value values;
    parsed = laws.parse-dump (some 2) (json.array (value ∷ values));
    listed = laws.elements-array (value ∷ values);
    read = e;
  }

  pub dumped-Holds_snoc :
      (values : List J) (value : J) (chain : List Block)
      → read_all (from_json json P) (values ++ value ∷ []) ≡ some chain
      → Holds json P (json.dump (some 2) (json.array (values ++ value ∷ []))) chain
  dumped-Holds_snoc [] value chain e = dumped-Holds value [] chain e
  dumped-Holds_snoc (v ∷ values) value chain e = dumped-Holds v (values ++ value ∷ []) chain e

  write_chain-IsStored :
      (disk : Disk) (values : List J) (chain : List Block)
      → Holds json P (json.dump (some 2) (json.array values)) chain
      → IsStored json P (write_chain json P no_faults 0 disk values).0 chain
  unfolding write_chain
  write_chain-IsStored disk values chain h = record {
    raw = json.dump (some 2) (json.array values);
    file = rw (atomic_write-no_faults 0 (json.dump (some 2) (json.array values)) disk.chain) refl;
    holds = h;
  }

  -- A chain of one block or more that is saved is stored.
  pub save_chain-IsStored :
      (disk : Disk) (b : Block) (chain : List Block)
      → AreStable P (b ∷ chain)
      → IsStored json P ((file_storage json P).save_chain disk (b ∷ chain)) (b ∷ chain)
  unfolding save_chain
  save_chain-IsStored disk b chain h =
      write_chain-IsStored disk (map (to_json json P) (b ∷ chain)) (b ∷ chain) (
        dumped-Holds (to_json json P b) (map (to_json json P) chain) (b ∷ chain)
          (read_all-AreStable (b ∷ chain) h))

  pub stored_values-IsStored :
      (disk : Disk) (chain : List Block) (v : IsStored json P disk chain)
      → stored_values json P disk ≡ some v.holds.values
  unfolding stored_values read_file
  stored_values-IsStored disk chain v =
      let long = is_empty-long v.raw v.holds.long in
      rw (v.file, long, v.holds.parsed, v.holds.listed) refl

  extends-last? :
      (values : List J) (value : J) (tip b : Block)
      → last? values ≡ some value
      → from_json json P value ≡ some tip
      → b.index ≡ (tip.index + 1) % u64_mod
      → b.previous_hash ≡ tip.hash
      → extends json P values b ≡ some true
  unfolding extends
  extends-last? values value tip b last read indexed linked =
      let index = (==_iff b.index ((tip.index + 1) % u64_mod)).1 indexed in
      let link = (text_eq_iff b.previous_hash tip.hash).1 linked in
      rw (last, extends, read, index, link) refl

  -- A block with the next index and the link to the last stored block is stored behind it, if no call
  -- of the file system fails, the JSON library does as documented, and the block is one that is read
  -- back as it was written.
  pub append_block-IsStored :
      (disk : Disk) (chain : List Block) (tip b : Block)
      → IsStored json P disk chain
      → last? chain ≡ some tip
      → b.index ≡ (tip.index + 1) % u64_mod
      → b.previous_hash ≡ tip.hash
      → IsStable P b
      → IsStored json P ((file_storage json P).append_block disk b) (chain ++ b ∷ [])
  unfolding append_block
  append_block-IsStored disk chain tip b v t indexed linked stable =
      let (value, last, read) =
        read_all-last? (from_json json P) v.holds.values chain tip v.holds.read t in
      let stored = stored_values-IsStored disk chain v in
      let fits = extends-last? v.holds.values value tip b last read indexed linked in
      let all = v.holds.values ++ to_json json P b ∷ [] in
      let writes : append_block json P no_faults 0 disk b
          ≡ some (write_chain json P no_faults 0 disk all) =
        rw (stored, append_block, fits) refl in
      subst (λ d. IsStored json P d (chain ++ b ∷ []))
        (sym (
          ap (λ (r : Option (Disk × Bool)). elim r [ none ↦ disk | some written ↦ written.0 ])
            writes))
        (write_chain-IsStored disk all (chain ++ b ∷ []) (
          dumped-Holds_snoc v.holds.values (to_json json P b) (chain ++ b ∷ []) (
            read_all-append (from_json json P) v.holds.values (to_json json P b) chain b
              v.holds.read (from_json-IsStable b stable))))
