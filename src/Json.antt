-- ===== src/Json.antt =====
-- Untyped values: `unknown`, and `Record<string, unknown>` for payloads, metadata and bodies.
-- Numbers in such a record are natural numbers. An optional field may be missing or `undefined`;
-- reading gives `undefined` in both cases.
use murrmure.Prelude.{
  ℕ, String, Bool, true, false, Option, none, some, ◌==◌, if◌then◌else◌, nat_eq, not,
}

mutual
  pub data Value : Type 0 where
    undefined null : Value
    bool : Bool → Value
    num : ℕ → Value
    str : String → Value
    arr : Values → Value
    obj : Fields → Value

  pub data Values : Type 0 where
    nil : Values
    cons : Value → Values → Values

  pub data Fields : Type 0 where
    end : Fields
    field : String → Value → Fields → Fields

-- `fields[key]`.
unfoldable pub get : String → Fields → Value
get key end = undefined
get key (field k v rest) = let found = get key rest in if k == key then v else found

-- `fields[key] = value`, which keeps the place of a key that is there.
unfoldable pub put : String → Value → Fields → Fields
put key value end = field key value end
put key value (field k v rest) =
    let later = put key value rest in if k == key then field k value rest else field k v later

-- `{ ...fields, ...patch }`.
unfoldable pub spread : Fields → Fields → Fields
unfolding put
spread fields end = fields
spread fields (field k v rest) = spread (put k v fields) rest

-- `if (value)`.
abbrev pub truthy : Value → Bool
truthy undefined = false
truthy null = false
truthy (bool b) = b
truthy (num n) = not (nat_eq n 0)
truthy (str s) = not (s == "")
truthy (arr _) = true
truthy (obj _) = true

-- `a === b`. Two objects that stand in different records are never the same object.
abbrev pub strict_eq : Value → Value → Bool
strict_eq undefined undefined = true
strict_eq null null = true
strict_eq (bool true) (bool true) = true
strict_eq (bool false) (bool false) = true
strict_eq (num a) (num b) = nat_eq a b
strict_eq (str a) (str b) = a == b
strict_eq _ _ = false

-- `value as string`, `as number` and `as Record<string, unknown>`: a value of another type, which
-- the source's casts do not expect, counts as undefined.
abbrev pub as_str : Value → Option String
as_str (str s) = some s
as_str _ = none

abbrev pub as_num : Value → Option ℕ
as_num (num n) = some n
as_num _ = none

abbrev pub as_obj : Value → Option Fields
as_obj (obj fields) = some fields
as_obj _ = none

abbrev pub or_undefined : Option String → Value
or_undefined none = undefined
or_undefined (some s) = str s

abbrev pub num_or_undefined : Option ℕ → Value
num_or_undefined none = undefined
num_or_undefined (some n) = num n

abbrev pub obj_or_undefined : Option Fields → Value
obj_or_undefined none = undefined
obj_or_undefined (some fields) = obj fields
