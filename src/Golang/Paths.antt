-- ===== src/Golang/Paths.antt =====
-- Package path/filepath: `Ext`, and the name of a file without it.
use mathlib.Core.List.{reverse}
use web_form.Prelude.{Text, [], ◌∷◌, ℕ, zero, suc, nat_eq, if◌then◌else◌, ◌≡◌, refl, codes, List}

-- The loop of `Ext`, from the end of the path; `seen` is what it has passed.
unfoldable pub ext_loop : Text → Text → Text
ext_loop seen [] = []
ext_loop seen (c ∷ before) =
    let further = ext_loop (c ∷ seen) before in
    if nat_eq c b'/' then [] else if nat_eq c b'.' then c ∷ seen else further

unfoldable pub ext : Text → Text
unfolding ext_loop
ext path = ext_loop [] (reverse path)

abbrev pub take {ℓ} : {A : Type ℓ} → ℕ → List A → List A
take zero xs = []
take (suc n) [] = []
take (suc n) (x ∷ xs) = x ∷ take n xs

ext_test : ext (codes "a.b/c.tar.gz") ≡ codes ".gz"
unfolding ext
ext_test = refl

ext_none : ext (codes "a.b/c") ≡ []
unfolding ext
ext_none = refl
