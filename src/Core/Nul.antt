-- ===== src/Core/Nul.antt =====
-- Texts without U+0000, which a column can hold.
use glacis.Base.{ℕ, zero, suc, ◌≡◌, refl, true, [], ◌∷◌, ◌++◌, arith, Text, take}
use glacis.Core.Models.{no_nul}

pub no_nul-append : (s t : Text) → no_nul s ≡ true → no_nul t ≡ true → no_nul (s ++ t) ≡ true
unfolding no_nul
no_nul-append [] t h k = k
no_nul-append (c ∷ s) t h k = ground (arith, no_nul-append s t (ground arith) k)

pub no_nul-take : (n : ℕ) (t : Text) → no_nul t ≡ true → no_nul (take n t) ≡ true
unfolding no_nul
no_nul-take zero t h = refl
no_nul-take (suc n) [] h = refl
no_nul-take (suc n) (c ∷ t) h = ground (arith, no_nul-take n t (ground arith))
