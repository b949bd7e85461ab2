-- ===== src/Text/Hash.antt =====
-- The hash of a deduplication key, and its numeral.
use murrmure.Prelude.{
  ℕ, zero, suc, ◌+◌, ◌-◌, ◌*◌, ◌/◌, ◌%◌, ◌^◌, ◌≤◌, ◌<◌, String, ◌≡◌, refl, ◌∙◌, List, [], ◌∷◌,
  arith, fold, fold-append, length, length-append, replicate, ltb, Bool-cases, inl, inr,
}
use murrmure.Text.{digits, char_codes, hash_step, hash_text, hash_digits}

fold-hash_step : (us : List ℕ) (h : ℕ) → h < 2 ^ 32 → fold hash_step h us < 2 ^ 32
fold-hash_step [] h lt = lt
fold-hash_step (u ∷ us) h lt = fold-hash_step us (hash_step h u) (omega arith)

-- The hash of any text fits in 32 bits.
pub hash_text-bound : (raw : String) → hash_text raw < 2 ^ 32
unfolding hash_text
hash_text-bound raw = fold-hash_step (char_codes raw) 0 (omega arith)

-- The number that digits stand for.
abbrev pub value_step : ℕ → ℕ → ℕ → ℕ
value_step base acc d = acc * base + d

abbrev pub value_of : ℕ → List ℕ → ℕ
value_of base = fold (value_step base) 0

digits-value : (fuel n : ℕ) → n < 16 ^ fuel → value_of 16 (digits 16 fuel n) ≡ n
unfolding digits
digits-value zero n lt = omega (arith, lt)
digits-value (suc fuel) n lt = elim (Bool-cases (ltb n 16)) [
  | inl small ↦ rw small (omega arith)
  | inr large ↦ rw large (
      rw (fold-append (value_step 16) 0 (digits 16 fuel (n / 16)) (n % 16 ∷ []))
        (rw (digits-value fuel (n / 16) (omega (arith, lt))) (omega arith)))
]

length-digits : (fuel n : ℕ) → length (digits 16 fuel n) ≤ fuel
unfolding digits
length-digits zero n = omega arith
length-digits (suc fuel) n = elim (Bool-cases (ltb n 16)) [
  | inl small ↦ rw small (omega arith)
  | inr large ↦ rw large (
      omega
        (arith, length-append (digits 16 fuel (n / 16)) (n % 16 ∷ []), length-digits fuel (n / 16)))
]

length-replicate : (n d : ℕ) → length (replicate n d) ≡ n
length-replicate zero d = refl
length-replicate (suc n) d = omega (arith, length-replicate n d)

fold-zeros : (n : ℕ) → fold (value_step 16) 0 (replicate n 0) ≡ 0
fold-zeros zero = refl
fold-zeros (suc n) = fold-zeros n

-- The numeral of a 32-bit hash has 16 digits, and the hash is read back from them.
pub hash_digits-value :
    (hash : ℕ)
    → hash < 2 ^ 32
    → (length (hash_digits hash) ≡ 16) × (value_of 16 (hash_digits hash) ≡ hash)
unfolding hash_digits
hash_digits-value hash lt =
    let ds = digits 16 8 hash in
    let zeros = replicate (16 - length ds) 0 in
    (
      omega (
        arith,
        length-append zeros ds,
        length-replicate (16 - length ds) 0,
        length-digits 8 hash,
      ),
      fold-append (value_step 16) 0 zeros ds
          ∙ rw (fold-zeros (16 - length ds)) (digits-value 8 hash (omega (arith, lt))),
    )
