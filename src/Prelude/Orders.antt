-- ===== src/Prelude/Orders.antt =====
-- A list and another with the same elements in some order.
use fc_preflight.Prelude.Lists.{any}
use mathlib.Core.Path.{◌≡◌, refl, ◌∙◌}
use mathlib.Core.Bool.{Bool, Bool-set}
use mathlib.Core.Logic.{∥∥₁_elim}
use mathlib.Core.List.{List, Perm, Permᴰ}
use native.Mathlib.Omega.{arith}

pub any-Permᴰ : {A : Type 0} (p : A → Bool) {xs ys : List A} → Permᴰ xs ys → any p xs ≡ any p ys
any-Permᴰ p Permᴰ.nil = refl
any-Permᴰ p (Permᴰ.cons e d) = rw e (ground (arith, any-Permᴰ p d))
any-Permᴰ p (Permᴰ.swap e f) = rw (e, f) (ground arith)
any-Permᴰ p (Permᴰ.trans d d') = any-Permᴰ p d ∙ any-Permᴰ p d'

-- A test holds of some element in any order.
pub any-Perm : {A : Type 0} (p : A → Bool) {xs ys : List A} → Perm xs ys → any p xs ≡ any p ys
any-Perm p {xs} {ys} d = ∥∥₁_elim d (Bool-set (any p xs) (any p ys)) (any-Permᴰ p)
