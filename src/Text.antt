-- ===== src/Text.antt =====
-- Text built from values: decimal and hexadecimal numerals, `join`, `split`, `String(value)`, and
-- the UTF-16 units that `charCodeAt` reads.
pub mod Hash
use Prim.Native.Char.{code}
use murrmure.Prelude.{
  ℕ, zero, suc, true, false, ◌+◌, ◌-◌, ◌*◌, ◌/◌, ◌%◌, ◌^◌, String, Bool, List, [], ◌∷◌, ◌++◌,
  nat_eq, ltb, if◌then◌else◌, template, map, fold, length, replicate,
}
use murrmure.Prelude.Int.{ℤ, pos, negsuc}
use murrmure.Json.{Value, undefined, null, bool, num, str, arr, obj, Values, nil, cons}

-- The digits of a number below `base ^ fuel`, the most significant first; "0" has one.
unfoldable pub digits : (base fuel n : ℕ) → List ℕ
digits base zero n = []
digits base (suc fuel) n =
    let higher = digits base fuel (n / base) ++ n % base ∷ [] in
    if ltb n base then n ∷ [] else higher

abbrev pub digit_text : ℕ → String
digit_text zero = "0"
digit_text (suc zero) = "1"
digit_text (suc (suc zero)) = "2"
digit_text (suc (suc (suc zero))) = "3"
digit_text (suc (suc (suc (suc zero)))) = "4"
digit_text (suc (suc (suc (suc (suc zero))))) = "5"
digit_text (suc (suc (suc (suc (suc (suc zero)))))) = "6"
digit_text (suc (suc (suc (suc (suc (suc (suc zero))))))) = "7"
digit_text (suc (suc (suc (suc (suc (suc (suc (suc zero)))))))) = "8"
digit_text (suc (suc (suc (suc (suc (suc (suc (suc (suc zero))))))))) = "9"
digit_text (suc (suc (suc (suc (suc (suc (suc (suc (suc (suc zero)))))))))) = "a"
digit_text (suc (suc (suc (suc (suc (suc (suc (suc (suc (suc (suc zero))))))))))) = "b"
digit_text (suc (suc (suc (suc (suc (suc (suc (suc (suc (suc (suc (suc zero)))))))))))) = "c"
digit_text (suc (suc (suc (suc (suc (suc (suc (suc (suc (suc (suc (suc (suc zero))))))))))))) = "d"
digit_text
      (suc (suc (suc (suc (suc (suc (suc (suc (suc (suc (suc (suc (suc (suc zero)))))))))))))) =
    "e"
digit_text _ = "f"

abbrev pub digits_text : List ℕ → String
digits_text ds = template (map digit_text ds)

-- `${n}`. A number has no more decimal digits than its own size, plus one.
unfoldable pub decimal : ℕ → String
unfolding digits
decimal n = digits_text (digits 10 (suc n) n)

abbrev pub decimal_int : ℤ → String
decimal_int (pos n) = decimal n
decimal_int (negsuc n) = template ("-" ∷ decimal (suc n) ∷ [])

-- `parts.join(separator)`.
unfoldable pub join : String → List String → String
join separator [] = ""
join separator (part ∷ []) = part
join separator (part ∷ next ∷ parts) =
    template (part ∷ separator ∷ join separator (next ∷ parts) ∷ [])

-- `text.split(".")`: the first part, and the others.
unfoldable pub split_dots : String → String × List String
split_dots String.[] = ("", [])
split_dots (String.◌∷◌ c rest) =
    let later = split_dots rest in
    if nat_eq (code c) b'.' then ("", later.0 ∷ later.1) else (String.◌∷◌ c later.0, later.1)

-- `text.replace(/^\$\.?/, "")`.
abbrev pub strip_dot : String → String
strip_dot String.[] = String.[]
strip_dot (String.◌∷◌ c rest) = if nat_eq (code c) b'.' then rest else String.◌∷◌ c rest

abbrev pub strip_root : String → String
strip_root String.[] = String.[]
strip_root (String.◌∷◌ c rest) = if nat_eq (code c) b'$' then strip_dot rest else String.◌∷◌ c rest

abbrev is_nullish : Value → Bool
is_nullish undefined = true
is_nullish null = true
is_nullish _ = false

-- `String(value)`; in an array, undefined and null give the empty text.
unfoldable mutual
  pub to_text : Value → String
  to_text undefined = "undefined"
  to_text null = "null"
  to_text (bool b) = if b then "true" else "false"
  to_text (num n) = decimal n
  to_text (str s) = s
  to_text (arr vs) = join "," (element_texts vs)
  to_text (obj _) = "[object Object]"

  pub element_texts : Values → List String
  element_texts nil = []
  element_texts (cons v vs) = (if is_nullish v then "" else to_text v) ∷ element_texts vs

-- The UTF-16 code units of a text.
abbrev pub units : ℕ → List ℕ
units c =
    if ltb c 0x10000
    then c ∷ []
    else (0xd800 + (c - 0x10000) / 0x400) ∷ (0xdc00 + (c - 0x10000) % 0x400) ∷ []

unfoldable pub char_codes : String → List ℕ
char_codes String.[] = []
char_codes (String.◌∷◌ c rest) = units (code c) ++ char_codes rest

-- `hash = (hash * 31 + unit) >>> 0`. The sum stays far below 2 ^ 53, so it is exact.
abbrev pub hash_step : ℕ → ℕ → ℕ
hash_step hash unit = (hash * 31 + unit) % 2 ^ 32

unfoldable pub hash_text : String → ℕ
unfolding char_codes
hash_text raw = fold hash_step 0 (char_codes raw)

-- `digits.padStart(width, "0")`.
abbrev pub pad_start : ℕ → List ℕ → List ℕ
pad_start width ds = replicate (width - length ds) 0 ++ ds

-- `hash.toString(16).padStart(16, "0")`, as digits and as text.
unfoldable pub hash_digits : ℕ → List ℕ
unfolding digits
hash_digits hash = pad_start 16 (digits 16 8 hash)
