-- ===== src/Storage/Files.antt =====
-- internal/storage/file.go, dump.go, utils.go: stores without a database. A file system is the
-- contents of its files; the calls of package os may fail, as the faults say.
pub mod Atomic
pub mod Documents
use web_form.Prelude.{
  Text, Text-comparable, [], ◌∷◌, ◌++◌, if◌then◌else◌, Bool, true, false, List, Option, none, some,
  Error, Result, ok, err, wrap, wrapped, codes,
}
use web_form.Prelude.Dict.{Dict, lookup, insert, delete}
use web_form.Schema.Types.{Stored, Value, one, text}

abbrev pub Files : Type 0
Files = Dict Text

-- What the calls of `atomicWrite` come to: the name of the new file or an error, what is written
-- before an error of `Write`, and the errors of `Close`, `Rename` and `Remove`.
pub record Faults : Type 0 where
  pub create_temp : Result Text
  pub write : Option (Text × Error)
  pub close : Option Error
  pub rename : Option Error
  pub remove : Option Error

-- A run that touches files: every state of the file system that it goes through, the last one, and
-- its error.
pub record Run : Type 0 where
  pub states : List Files
  pub last : Files
  pub error : Option Error

-- `os.Remove`, whose error `atomicWrite` does not look at.
abbrev pub remove_file : Option Error → Text → Files → Files
remove_file none tmp fs = delete tmp fs
remove_file (some e) tmp fs = fs

-- The end of a run that has gone through states: `defer os.Remove(f.Name())`.
abbrev pub removing : Faults → Text → List Files → Files → Option Error → Run
removing faults tmp states fs e = record {
  states = states ++ remove_file faults.remove tmp fs ∷ [];
  last = remove_file faults.remove tmp fs;
  error = e;
}

-- `os.Rename`
unfoldable pub rename_file : Text → Text → Files → Files
rename_file tmp file fs = elim (lookup tmp fs) [
  | none ↦ fs
  | some content ↦ delete tmp (insert file content fs)
]

-- What `atomicWrite` does from the rename on.
unfoldable pub rename_step : Faults → Text → Text → List Files → Files → Run
unfolding rename_file
rename_step faults tmp file states fs = elim faults.rename [
  | some e ↦ removing faults tmp states fs (some e)
  | none ↦
      let renamed = rename_file tmp file fs in
      removing faults tmp (states ++ renamed ∷ []) renamed none
]

unfoldable pub close_step : Faults → Text → Text → List Files → Files → Run
unfolding rename_step
close_step faults tmp file states fs = elim faults.close [
  | some e ↦ removing faults tmp states fs (some (wrap (codes "close temp file: %w") [] e))
  | none ↦ rename_step faults tmp file states fs
]

unfoldable pub write_step : Faults → Text → Text → Text → List Files → Files → Run
unfolding close_step
write_step faults tmp file content states fs = elim faults.write [
  | some (part, e) ↦
      let cut = insert tmp part fs in
      removing faults tmp (states ++ cut ∷ []) cut (some (wrap (codes "write temp file: %w") [] e))
  | none ↦ let full = insert tmp content fs in close_step faults tmp file (states ++ full ∷ []) full
]

-- `atomicWrite`
unfoldable pub atomic_write : Faults → Text → Text → Files → Run
unfolding write_step
atomic_write faults file content fs = elim faults.create_temp [
  | err e ↦ record {
    states = fs ∷ [];
    last = fs;
    error = some (wrap (codes "create temp file: %w") [] e);
  }
  | ok tmp ↦
      let created = insert tmp [] fs in
      write_step faults tmp file content (fs ∷ created ∷ []) created
]

-- The copy of the fields of a submission, in the order in which Go reads them.
unfoldable pub copy_loop : Dict Stored → List Text → Dict Stored → Dict Stored
copy_loop fields [] values = values
copy_loop fields (k ∷ ks) values =
    copy_loop fields ks (elim (lookup k fields) [ none ↦ values | some v ↦ insert k v values ])

-- What `(fs *FileStore) Store` uses: an identifier, `filepath.Join`, `os.MkdirAll` and JSON.
pub record System : Type 0 where
  pub new_id : Result Text
  pub join : List Text → Text
  pub make_dirs : Text → Option Error
  pub marshal : Dict Stored → Result Text
  pub faults : Faults

abbrev pub with_id : List Text → Dict Stored → Text → Dict Stored
with_id keys fields id = insert (codes "ID") (one (text id)) (copy_loop fields keys [])

-- What `Store` does once it has the directory.
unfoldable pub write_document :
    System → Text → Text → List Text → Dict Stored → Files → Dict Stored × Run
unfolding copy_loop atomic_write
write_document s dir id keys fields fs =
    let values = with_id keys fields id in
    elim (s.marshal values) [
      | err e ↦ (
        [],
        record {
          states = fs ∷ [];
          last = fs;
          error = some (wrap (codes "serialize document: %w") [] e);
        },
      )
      | ok document ↦
          (values, atomic_write s.faults (s.join (dir ∷ (id ++ codes ".json") ∷ [])) document fs)
    ]

-- `(fs *FileStore) Store`
unfoldable pub file_store :
    System → Text → Text → List Text → Dict Stored → Files → Dict Stored × Run
unfolding write_document
file_store s directory table keys fields fs = elim s.new_id [
  | err e ↦ (
    [],
    record { states = fs ∷ []; last = fs; error = some (wrap (codes "generate ULID: %w") [] e) },
  )
  | ok id ↦
      let dir = s.join (directory ∷ table ∷ []) in
      elim (s.make_dirs dir) [
        | some e ↦ (
          [],
          record {
            states = fs ∷ [];
            last = fs;
            error = some (wrap (codes "create base dir %q: %w") (dir ∷ []) e);
          },
        )
        | none ↦ write_document s dir id keys fields fs
      ]
]

-- `(sd *Dump) Store`, over the encoder that writes to the standard output.
unfoldable pub dump_store :
    (Text → Dict Stored → Option Error) → Text → Dict Stored → Dict Stored × Option Error
dump_store encode table fields = (fields, encode table fields)

-- `ClosableStorage`, and `NopCloser`.
pub record Closable {ℓ} (A : Type ℓ) : Type ℓ where
  pub store : A
  pub close : Option Error

unfoldable pub nop_closer {ℓ} : {A : Type ℓ} → A → Closable A
nop_closer storage = record { store = storage; close = none }
