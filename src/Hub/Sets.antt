-- ===== src/Hub/Sets.antt =====
-- JavaScript's `Set` of texts: the list of its members in the order of insertion.
use murrmure.Prelude.{
  ◌≡◌, refl, String, Bool, false, ◌||◌, List, [], ◌∷◌, ◌++◌, ◌==◌, if◌then◌else◌, arith, fold,
  eq_iff,
}

-- `set.has(x)` and `xs.includes(x)`.
abbrev pub has : String → List String → Bool
has x [] = false
has x (y ∷ ys) = (y == x) || has x ys

-- `set.add(x)`.
unfoldable pub add : List String → String → List String
add xs x = if has x xs then xs else xs ++ x ∷ []

-- `[...new Set(xs)]`.
abbrev pub distinct : List String → List String
distinct xs = fold add [] xs

pub has-snoc : (x y : String) (xs : List String) → has x (xs ++ y ∷ []) ≡ ((y == x) || has x xs)
has-snoc x y [] = refl
has-snoc x y (z ∷ xs) = ground (arith, has-snoc x y xs)

pub has-add : (x y : String) (xs : List String) → has x (add xs y) ≡ ((y == x) || has x xs)
unfolding add
has-add x y xs = ground (arith, eq_iff y x, has-snoc x y xs)

pub has-fold-add :
    (x : String) (ys xs : List String) → has x (fold add xs ys) ≡ (has x xs || has x ys)
has-fold-add x [] xs = ground arith
has-fold-add x (y ∷ ys) xs = ground (arith, has-fold-add x ys (add xs y), has-add x y xs)

pub has-distinct : (x : String) (xs : List String) → has x (distinct xs) ≡ has x xs
has-distinct x xs = has-fold-add x xs []
