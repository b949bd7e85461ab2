-- ===== src/Hub/Cycles/Lists.antt =====
-- Sets and arrays of texts, as packages/hub-core/src/flow-engine/cycle-detect.ts uses them.
use murrmure.Prelude.{
  ℕ, zero, suc, ◌≤◌, ◌<◌, ◌≡◌, refl, ap, String, true, false, Option, none, some, List, [], ◌∷◌,
  ◌++◌, if◌then◌else◌, ◌==◌, eq_iff, eq_refl, arith, length,
}
use murrmure.Hub.Sets.{has}

-- `set.delete(x)`.
abbrev pub delete : String → List String → List String
delete x [] = []
delete x (y ∷ ys) = let rest = delete x ys in if y == x then rest else y ∷ rest

abbrev pub after_first : Option ℕ → Option ℕ
after_first none = none
after_first (some i) = some (suc i)

-- `xs.indexOf(x)`, with none for -1.
abbrev pub index_of : String → List String → Option ℕ
index_of x [] = none
index_of x (y ∷ ys) = let later = after_first (index_of x ys) in if y == x then some 0 else later

-- `xs.slice(n)`.
abbrev pub drop : ℕ → List String → List String
drop zero xs = xs
drop (suc n) [] = []
drop (suc n) (x ∷ xs) = drop n xs

-- `xs.pop()`.
abbrev pub pop : List String → List String
pop [] = []
pop (x ∷ []) = []
pop (x ∷ y ∷ xs) = x ∷ pop (y ∷ xs)

pub pop-snoc : (xs : List String) (x : String) → pop (xs ++ x ∷ []) ≡ xs
pop-snoc [] x = refl
pop-snoc (y ∷ []) x = refl
pop-snoc (y ∷ z ∷ xs) x = ap (λ l. y ∷ l) (pop-snoc (z ∷ xs) x)

pub delete-absent : (x : String) (xs : List String) → has x xs ≡ false → delete x xs ≡ xs
delete-absent x [] h = refl
delete-absent x (y ∷ ys) h = ground (arith, delete-absent x ys)

pub delete-head : (x : String) (xs : List String) → has x xs ≡ false → delete x (x ∷ xs) ≡ xs
delete-head x xs h = rw (eq_refl x) (delete-absent x xs h)

-- The members of a list that are not marked.
abbrev pub unmarked_in : List String → List String → ℕ
unmarked_in marks [] = 0
unmarked_in marks (x ∷ xs) =
    let rest = unmarked_in marks xs in if has x marks then rest else suc rest

pub unmarked_in-more :
    (y : String) (marks xs : List String) → unmarked_in (y ∷ marks) xs ≤ unmarked_in marks xs
unmarked_in-more y marks [] = omega arith
unmarked_in-more y marks (x ∷ xs) = ground (arith, unmarked_in-more y marks xs)

pub unmarked_in-mark :
    (y : String) (marks xs : List String)
    → has y xs ≡ true
    → has y marks ≡ false
    → unmarked_in (y ∷ marks) xs < unmarked_in marks xs
unmarked_in-mark y marks [] h f = cc
unmarked_in-mark y marks (x ∷ xs) h f =
    ground (arith, eq_iff x y, eq_iff y x, unmarked_in-mark y marks xs, unmarked_in-more y marks xs)

pub unmarked_in-length : (xs : List String) → unmarked_in [] xs ≡ length xs
unmarked_in-length [] = refl
unmarked_in-length (x ∷ xs) = omega (arith, unmarked_in-length xs)
