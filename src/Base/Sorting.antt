-- ===== src/Base/Sorting.antt =====
-- sort.Strings: Go orders strings by their bytes.
use mathlib.Core.Bool.{Bool, true, false}
use mathlib.Core.List.{List, [], ◌∷◌}
use mathlib.Core.Path.{◌≡◌, refl, ◌∙◌}
use native.Mathlib.Omega.{arith}
use go_certs_manager.Base.Lists.{any}
use go_certs_manager.Base.Strings.{Text}
use go_certs_manager.Base.Tests.{◌==◌, ltb, if◌then◌else◌}

unfoldable pub text_leb : Text → Text → Bool
text_leb [] t = true
text_leb (c ∷ s) [] = false
text_leb (c ∷ s) (d ∷ t) = if ltb c d then true else (if c == d then text_leb s t else false)

unfoldable pub insert_text : Text → List Text → List Text
insert_text x [] = x ∷ []
insert_text x (y ∷ ys) = if text_leb x y then x ∷ y ∷ ys else y ∷ insert_text x ys

unfoldable pub sort_texts : List Text → List Text
sort_texts [] = []
sort_texts (x ∷ xs) = insert_text x (sort_texts xs)

any-insert_text :
    (p : Text → Bool) (x : Text) (ys : List Text) → any p (insert_text x ys) ≡ any p (x ∷ ys)
unfolding insert_text
any-insert_text p x [] = refl
any-insert_text p x (y ∷ ys) = ground (arith, any-insert_text p x ys)

-- Sorting keeps every member, and adds none.
pub any-sort_texts : (p : Text → Bool) (xs : List Text) → any p (sort_texts xs) ≡ any p xs
unfolding sort_texts
any-sort_texts p [] = refl
any-sort_texts p (x ∷ xs) =
    any-insert_text p x (sort_texts xs) ∙ ground (arith, any-sort_texts p xs)
