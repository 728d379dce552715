-- ===== src/Storage/Files/Documents.antt =====
-- `(fs *FileStore) Store`: the file of a submission.
use web_form.Prelude.{
  Text, Text-comparable, [], ◌∷◌, ◌++◌, if◌then◌else◌, List, Option, none, some, ok, codes, ◌≡◌,
  ◌≢◌, ◌==◌, inl, inr, refl, arith, ◌∙◌, text_eq_iff, Option-cases, Result-cases, elem,
}
use web_form.Prelude.Dict.{Dict, lookup, insert, lookup-insert}
use web_form.Schema.Types.{Stored, one, text}
use web_form.Storage.Files.{Files, copy_loop, System, with_id, write_document, file_store}
use web_form.Storage.Files.Atomic.{atomic_write-Settled}

abbrev pub or_kept {ℓ} : {A : Type ℓ} → Option A → Option A → Option A
or_kept (some a) b = some a
or_kept none b = b

or_kept-none {ℓ} : {A : Type ℓ} (o : Option A) → or_kept o none ≡ o
or_kept-none none = refl
or_kept-none (some a) = refl

lookup-copy_loop :
    (fields : Dict Stored) (ks : List Text) (values : Dict Stored) (k : Text)
    → lookup k (copy_loop fields ks values)
      ≡ (if elem k ks then or_kept (lookup k fields) (lookup k values) else lookup k values)
unfolding copy_loop
lookup-copy_loop fields [] values k = refl
lookup-copy_loop fields (j ∷ ks) values k = elim (Option-cases (lookup j fields)) [
  | inl q ↦ rw (q, lookup-copy_loop fields ks values k) (ground (arith, text_eq_iff j k))
  | inr (v, q) ↦
      rw (q, lookup-copy_loop fields ks (insert j v values) k, lookup-insert)
        (ground (arith, text_eq_iff j k))
]

-- The document of a submission has its identifier under ID, whatever the submission has there, and
-- else the fields of the submission among the keys that are read.
pub lookup-with_id :
    (ks : List Text) (fields : Dict Stored) (id k : Text)
    → lookup k (with_id ks fields id) ≡ (
        if codes "ID" == k
        then some (one (text id))
        else if elem k ks
        then lookup k fields
        else none)
unfolding lookup
lookup-with_id ks fields id k =
    lookup-insert (codes "ID") k (one (text id)) (copy_loop fields ks [])
    ∙ rw (lookup-copy_loop fields ks [] k, or_kept-none)

-- The path of the file of a submission.
abbrev pub document_path : System → Text → Text → Text → Text
document_path s directory table id =
    s.join (s.join (directory ∷ table ∷ []) ∷ (id ++ codes ".json") ∷ [])

-- If the file store returns no error for a submission, the file named by its identifier holds the
-- document of the submission in full, and the document is what is returned. The name of the
-- temporary file is not that of the file.
pub file_store_lem :
    (s : System) (directory table : Text) (ks : List Text) (fields : Dict Stored) (fs : Files)
    (id tmp : Text)
    → s.new_id ≡ ok id
    → s.faults.create_temp ≡ ok tmp
    → document_path s directory table id ≢ tmp
    → (file_store s directory table ks fields fs).1.error ≡ none
    → (document : Text) × (s.marshal (with_id ks fields id) ≡ ok document)
      × ((file_store s directory table ks fields fs).0 ≡ with_id ks fields id)
      × (lookup
            (document_path s directory table id)
            (file_store s directory table ks fields fs).1.last
          ≡ some document)
unfolding file_store write_document
file_store_lem s directory table ks fields fs id tmp q t apart done =
    elim (Result-cases (s.marshal (with_id ks fields id))) [
      | inl (document, m) ↦
          let settled =
            atomic_write-Settled fs (document_path s directory table id) document s.faults tmp t
              apart in
          let made : s.make_dirs (s.join (directory ∷ table ∷ [])) ≡ none = ground arith in
          (
            document,
            m,
            ground arith,
            elim settled.ended [
              | inl (_, new_file) ↦ ground arith
              | inr (e, failed, _) ↦ absurd (ground arith)
            ],
          )
      | inr (e, m) ↦ absurd (ground arith)
    ]
