-- ===== src/Program/Startup/Checks.antt =====
-- When the database is migrated.
use web_form.Prelude.{
  Text-comparable, [], ◌∷◌, ◌&&◌, ◌||◌, not, Bool, false, List, none, some, codes, ◌≡◌, ◌≢◌, refl,
  arith, ◌==◌, All,
}
use web_form.Golang.Paths.{ext}
use web_form.Program.Settings.{Settings}
use web_form.Program.Startup.{Walked, migrate_loop, should_migrate}

-- A file with the extension .sql.
abbrev pub is_migration : Walked → Bool
is_migration e = elim e.is_dir [
  | none ↦ false
  | some is_dir ↦ not is_dir && ext e.path == codes ".sql"
]

abbrev pub any {ℓ} : {A : Type ℓ} → (A → Bool) → List A → Bool
any p [] = false
any p (x ∷ xs) = p x || any p xs

-- A call of the walk for an entry that could be read.
abbrev pub IsReadable : Walked → Type 0
IsReadable e = (e.error ≡ none) × (e.is_dir ≢ none)

migrate_loop-any :
    (walk : List Walked)
    → All IsReadable walk
    → migrate_loop false walk ≡ some (any is_migration walk, none)
unfolding migrate_loop
migrate_loop-any [] h = refl
migrate_loop-any (e ∷ es) ((fine, known), h) = ground (arith, migrate_loop-any es h)

-- If every entry below the directory of migrations can be read, the database is migrated exactly
-- when that is configured and some file there has the extension .sql.
pub should_migrate-any :
    (cfg : Settings) (walk : List Walked)
    → All IsReadable walk
    → should_migrate cfg walk ≡ some (cfg.db.migrate && any is_migration walk)
unfolding should_migrate
should_migrate-any cfg walk h = ground (arith, migrate_loop-any walk h)
