-- ===== src/Storage/Files/Atomic.antt =====
-- `atomicWrite` at every point of its run.
use web_form.Prelude.{
  Option, ◌≢◌, Text, Text-comparable, [], ◌∷◌, ◌++◌, if◌then◌else◌, List, none, some, Error, ok,
  ◌≡◌, ◌≢◌, ◌==◌, ◌⊎◌, inl, inr, refl, arith, ◌∙◌, All, All-append, text_eq_iff, text_eq_refl,
  Option-cases,
}
use web_form.Prelude.Dict.{lookup, insert, lookup-insert, lookup-delete}
use web_form.Storage.Files.{
  remove_file, Files, Faults, Run, rename_file, rename_step, close_step, write_step, atomic_write,
  removing,
}

module _ (before : Files) (file content : Text) where
  -- The file is as it was, or has the new content in full.
  abbrev pub OldOrNew : Files → Type 0
  OldOrNew fs = (lookup file fs ≡ lookup file before) ⊎ (lookup file fs ≡ some content)

  -- What a run leaves: the new file if there is no error, else the old one; the temporary file is
  -- gone if it could be removed, and every other file is as it was.
  pub record Settled (remove : Option Error) (tmp : Text) (r : Run) : Type 0 where
    pub whole : All OldOrNew r.states
    pub ended :
        ((r.error ≡ none) × (lookup file r.last ≡ some content))
        ⊎ ((e : Error) × (r.error ≡ some e) × (lookup file r.last ≡ lookup file before))
    pub removed : (remove ≢ none) ⊎ (lookup tmp r.last ≡ none)
    pub others :
        (p : Text)
        → lookup p r.last ≡ (
            if tmp == p
            then lookup tmp r.last
            else if file == p
            then lookup file r.last
            else lookup p before)

  module _ (tmp : Text) (apart : file ≢ tmp) (faults : Faults) where
    -- Only the temporary file is different.
    abbrev SameElse : Files → Type 0
    SameElse fs = (p : Text) → p ≢ tmp → lookup p fs ≡ lookup p before

    insert-SameElse : (fs : Files) (part : Text) → SameElse fs → SameElse (insert tmp part fs)
    insert-SameElse fs part same p ne =
        rw lookup-insert (ground (arith, text_eq_iff tmp p, same p ne))

    lookup-remove_file :
        (o : Option Error) (fs : Files) (p : Text)
        → p ≢ tmp
        → lookup p (remove_file o tmp fs) ≡ lookup p fs
    lookup-remove_file (some e) fs p ne = refl
    lookup-remove_file none fs p ne = rw lookup-delete (ground (arith, text_eq_iff tmp p))

    removed_file :
        (o : Option Error) (fs : Files) → (o ≢ none) ⊎ (lookup tmp (remove_file o tmp fs) ≡ none)
    removed_file (some e) fs = inl λ q. cc q
    removed_file none fs = inr (rw lookup-delete (ground (arith, text_eq_iff tmp tmp)))

    -- The names of a state are the temporary file, the file, and the rest.
    others_by :
        (fs : Files)
        → ((p : Text) → p ≢ file → p ≢ tmp → lookup p fs ≡ lookup p before)
        → (p : Text)
        → lookup p fs ≡ (
            if tmp == p
            then lookup tmp fs
            else if file == p
            then lookup file fs
            else lookup p before)
    others_by fs rest p = ground (arith, text_eq_iff tmp p, text_eq_iff file p, rest p)

    -- A run that ends with an error before the rename.
    stopped-Settled :
        (states : List Files) (fs : Files) (e : Error)
        → All OldOrNew states
        → SameElse fs
        → Settled faults.remove tmp (removing faults tmp states fs (some e))
    stopped-Settled states fs e h same =
        let clean : SameElse (remove_file faults.remove tmp fs) =
          λ p ne. lookup-remove_file faults.remove fs p ne ∙ same p ne in
        record {
          whole = All-append OldOrNew states _ h (inl (clean file apart), tt);
          ended = inr (e, refl, clean file apart);
          removed = removed_file faults.remove fs;
          others = others_by _ (λ p _ ne. clean p ne);
        }

    lookup-rename_file :
        (fs : Files)
        → lookup tmp fs ≡ some content
        → (p : Text) → p ≢ tmp
        → lookup p (rename_file tmp file fs) ≡ (if file == p then some content else lookup p fs)
    unfolding rename_file
    lookup-rename_file fs full p ne =
        rw (full, rename_file, lookup-delete, lookup-insert) (ground (arith, text_eq_iff tmp p))

    renamed_new :
        (fs : Files)
        → lookup tmp fs ≡ some content
        → lookup file (rename_file tmp file fs) ≡ some content
    renamed_new fs full = lookup-rename_file fs full file apart ∙ rw (text_eq_refl file)

    renamed_else :
        (fs : Files)
        → SameElse fs
        → lookup tmp fs ≡ some content
        → (p : Text) → p ≢ file
        → p ≢ tmp
        → lookup p (rename_file tmp file fs) ≡ lookup p before
    renamed_else fs same full p ne ne' =
        lookup-rename_file fs full p ne' ∙ ground (arith, text_eq_iff file p, same p ne')

    renamed-Settled :
        (states : List Files) (fs : Files)
        → All OldOrNew states
        → SameElse fs
        → lookup tmp fs ≡ some content
        → Settled faults.remove tmp (
            removing faults tmp
              (states ++ rename_file tmp file fs ∷ [])
              (rename_file tmp file fs)
              none)
    renamed-Settled states fs h same full =
        let renamed = rename_file tmp file fs in
        let last_same = lookup-remove_file faults.remove renamed in
        let new_file : lookup file (remove_file faults.remove tmp renamed) ≡ some content =
          last_same file apart ∙ renamed_new fs full in
        let so_far = All-append OldOrNew states (renamed ∷ []) h (inr (renamed_new fs full), tt) in
        record {
          whole =
              All-append OldOrNew (states ++ renamed ∷ [])
                (remove_file faults.remove tmp renamed ∷ []) so_far (inr new_file, tt);
          ended = inl (refl, new_file);
          removed = removed_file faults.remove renamed;
          others = others_by _ (λ p ne ne'. last_same p ne' ∙ renamed_else fs same full p ne ne');
        }

    rename_step-Settled :
        (states : List Files) (fs : Files)
        → All OldOrNew states
        → SameElse fs
        → lookup tmp fs ≡ some content
        → Settled faults.remove tmp (rename_step faults tmp file states fs)
    unfolding rename_step
    rename_step-Settled states fs h same full = elim (Option-cases faults.rename) [
      | inr (e, q) ↦ rw (q, rename_step) (stopped-Settled states fs e h same)
      | inl q ↦ rw (q, rename_step) (renamed-Settled states fs h same full)
    ]

    close_step-Settled :
        (states : List Files) (fs : Files)
        → All OldOrNew states
        → SameElse fs
        → lookup tmp fs ≡ some content
        → Settled faults.remove tmp (close_step faults tmp file states fs)
    unfolding close_step
    close_step-Settled states fs h same full = elim (Option-cases faults.close) [
      | inr (e, q) ↦ rw (q, close_step) (stopped-Settled states fs _ h same)
      | inl q ↦ rw (q, close_step) (rename_step-Settled states fs h same full)
    ]

    write_step-Settled :
        (states : List Files) (fs : Files)
        → All OldOrNew states
        → SameElse fs
        → Settled faults.remove tmp (write_step faults tmp file content states fs)
    unfolding write_step
    write_step-Settled states fs h same =
        let grown : (part : Text) → All OldOrNew (states ++ insert tmp part fs ∷ []) = λ part.
          All-append OldOrNew states _ h (inl (insert-SameElse fs part same file apart), tt) in
        elim (Option-cases faults.write) [
          | inr ((part, e), q) ↦
              rw (q, write_step) (stopped-Settled _ _ _ (grown part) (insert-SameElse fs part same))
          | inl q ↦
              rw (q, write_step)
                (close_step-Settled _ _ (grown content) (insert-SameElse fs content same)
                  (rw lookup-insert (rw (text_eq_refl tmp))))
        ]

  -- However the calls of atomicWrite behind CreateTemp fail or succeed, the file is at every point
  -- of the run as it was or new in full; it is the new one exactly if there is no error; the
  -- temporary file is gone at the end if it can be removed, and no other file is changed. The name
  -- of the temporary file is not that of the file.
  pub atomic_write-Settled :
      (faults : Faults) (tmp : Text)
      → faults.create_temp ≡ ok tmp
      → file ≢ tmp
      → Settled faults.remove tmp (atomic_write faults file content before)
  unfolding atomic_write
  atomic_write-Settled faults tmp q apart =
      rw (q, atomic_write)
        (write_step-Settled tmp apart faults (before ∷ insert tmp [] before ∷ [])
          (insert tmp [] before)
          (
            inl refl,
            (inl (insert-SameElse tmp apart faults before [] (λ p _. refl) file apart), tt),
          )
          (insert-SameElse tmp apart faults before [] (λ p _. refl)))
