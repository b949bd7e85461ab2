-- ===== src/Prelude/Int.antt =====
-- Signed integers: revisions and cursors, for which the source uses -1 as well.
use murrmure.Prelude.{ℕ, suc, zero, ◌≡◌, ◌↔◌, Bool, true, false, arith, nat_eq}

-- `negsuc n` is -(n + 1).
pub data ℤ : Type 0 where
  pos : ℕ → ℤ
  negsuc : ℕ → ℤ

abbrev pub int_eq : ℤ → ℤ → Bool
int_eq (pos a) (pos b) = nat_eq a b
int_eq (negsuc a) (negsuc b) = nat_eq a b
int_eq _ _ = false

pub int_eq_iff : (a b : ℤ) → (int_eq a b ≡ true) ↔ (a ≡ b)
int_eq_iff a b = ground arith

-- `n - 1`.
abbrev pub pred_int : ℕ → ℤ
pred_int zero = negsuc 0
pred_int (suc n) = pos n
