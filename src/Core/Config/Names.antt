-- ===== src/Core/Config/Names.antt =====
-- The order of names (`std::less<std::string>`), by which the maps of canopen_core are sorted.
use ros2_canopen.Base.{◌≡◌, refl, arith, ap, ◌∙◌, true, false, [], ◌∷◌}
use ros2_canopen.Core.Manager.{Name, same_name, less_name}

pub same_name_refl : (a : Name) → same_name a a ≡ true
same_name_refl [] = refl
same_name_refl (c ∷ cs) = ground (arith, same_name_refl cs)

pub same_name_path : (a b : Name) → same_name a b ≡ true → a ≡ b
same_name_path [] [] h = refl
same_name_path [] (d ∷ ds) h = absurd (ground (arith, h))
same_name_path (c ∷ cs) [] h = absurd (ground (arith, h))
same_name_path (c ∷ cs) (d ∷ ds) h =
    let e : c ≡ d = ground (arith, h) in
    let es : cs ≡ ds = same_name_path cs ds (ground (arith, h)) in
    ap (λ x. x ∷ cs) e ∙ ap (λ x. d ∷ x) es

pub less_name_trans :
    (a b c : Name) → less_name a b ≡ true → less_name b c ≡ true → less_name a c ≡ true
less_name_trans [] [] c h k = absurd (ground (arith, h))
less_name_trans [] (y ∷ ys) [] h k = absurd (ground (arith, k))
less_name_trans [] (y ∷ ys) (z ∷ zs) h k = refl
less_name_trans (x ∷ xs) [] c h k = absurd (ground (arith, h))
less_name_trans (x ∷ xs) (y ∷ ys) [] h k = absurd (ground (arith, k))
less_name_trans (x ∷ xs) (y ∷ ys) (z ∷ zs) h k = ground (arith, h, k, less_name_trans xs ys zs)

pub less_name_same : (a b : Name) → less_name a b ≡ true → same_name a b ≡ false
less_name_same [] [] h = absurd (ground (arith, h))
less_name_same [] (y ∷ ys) h = refl
less_name_same (x ∷ xs) [] h = refl
less_name_same (x ∷ xs) (y ∷ ys) h = ground (arith, h, less_name_same xs ys)

-- A name that is neither the same nor less is greater.
pub less_name_total :
    (a b : Name) → same_name a b ≡ false → less_name a b ≡ false → less_name b a ≡ true
less_name_total [] [] h k = absurd (ground (arith, h))
less_name_total [] (y ∷ ys) h k = absurd (ground (arith, k))
less_name_total (x ∷ xs) [] h k = refl
less_name_total (x ∷ xs) (y ∷ ys) h k = ground (arith, h, k, less_name_total xs ys)
