-- ===== src/Hub/Ids.antt =====
-- The prefixes of ids: packages/hub-core/src/bridge/ids.ts, and the helpers of the same purpose in
-- packages/hub-core/src/run.
use Prim.Native.Char.{code, Char}
use Prim.Native.String
use Prim.Native.String.append.{nil, cons}
use text.Mathlib.TextLemmas.{append-nil, append_assoc}
use murrmure.Prelude.{
  ◌≡◌, refl, ap, ◌∙◌, sym, String, true, Option, none, some, [], ◌∷◌, arith, nat_eq, if◌then◌else◌,
  get_or, is_some, template,
}

-- What follows the prefix, `text.slice(prefix.length)`, when `text.startsWith(prefix)`.
unfoldable pub after_prefix : String → String → Option String
after_prefix String.[] text = some text
after_prefix (String.◌∷◌ c prefix) String.[] = none
after_prefix (String.◌∷◌ c prefix) (String.◌∷◌ d text) =
    let rest = after_prefix prefix text in if nat_eq (code c) (code d) then rest else none

-- `id.startsWith("spc_") ? id.slice(4) : id`.
abbrev pub bare_space_id : String → String
bare_space_id id = get_or (after_prefix "spc_" id) id

abbrev pub prefixed_run : String → String
prefixed_run run_id =
    if is_some (after_prefix "run_" run_id) then run_id else template ("run_" ∷ run_id ∷ [])

-- What follows the first underscore, `id.slice(id.indexOf("_") + 1)`, when there is one.
unfoldable pub after_underscore : String → Option String
after_underscore String.[] = none
after_underscore (String.◌∷◌ c rest) =
    let later = after_underscore rest in if nat_eq (code c) b'_' then some rest else later

-- `stripPrefix`, with its copies `bare` and `stripPrefixed`.
abbrev pub strip_prefix : String → String
strip_prefix id = get_or (after_underscore id) id

abbrev pub add_prefix : String → String → String
add_prefix prefix bare = template (prefix ∷ "_" ∷ bare ∷ [])

unfoldable pub run_id_to_instance_id : String → String
run_id_to_instance_id run_id = template ("ins_" ∷ get_or (after_prefix "run_" run_id) run_id ∷ [])

abbrev pub first_of : Option String → Option String → Option String
first_of none o = o
first_of (some s) o = some s

unfoldable pub instance_id_to_run_bare : String → String
instance_id_to_run_bare id = get_or (first_of (after_prefix "ins_" id) (after_prefix "run_" id)) id

code_eq : (c : Char) → nat_eq (code c) (code c) ≡ true
code_eq c = ground arith

-- A prefix that was put before a text is found there, and the text is what follows it.
after_prefix-append :
    (prefix text : String) → after_prefix prefix (String.◌++◌ prefix text) ≡ some text
unfolding after_prefix
after_prefix-append String.[] text = ap some (nil text)
after_prefix-append (String.◌∷◌ c prefix) text =
    ap (after_prefix (String.◌∷◌ c prefix)) (cons c prefix text)
    ∙ rw (code_eq c) (after_prefix-append prefix text)

after_underscore-append :
    (prefix text : String)
    → after_underscore prefix ≡ none
    → after_underscore (String.◌++◌ prefix (String.◌++◌ "_" text)) ≡ some text
unfolding after_underscore
after_underscore-append String.[] text h =
    ap after_underscore (nil (String.◌++◌ "_" text) ∙ cons _ "" text) ∙ ap some (nil text)
after_underscore-append (String.◌∷◌ c prefix) text h =
    ap after_underscore (cons c prefix (String.◌++◌ "_" text))
    ∙ ground (arith, h, after_underscore-append prefix text)

template-one : (text : String) → template (text ∷ []) ≡ text
template-one text = append-nil text

after_prefix-add :
    (prefix bare : String)
    → after_prefix (String.◌++◌ prefix "_") (add_prefix prefix bare) ≡ some bare
after_prefix-add prefix bare =
    ap (after_prefix (String.◌++◌ prefix "_"))
      (sym (append_assoc prefix "_" (template (bare ∷ []))))
    ∙ after_prefix-append (String.◌++◌ prefix "_") (template (bare ∷ []))
    ∙ ap some (template-one bare)

instance_id_to_run_bare-ins :
    (id bare : String) → after_prefix "ins_" id ≡ some bare → instance_id_to_run_bare id ≡ bare
unfolding instance_id_to_run_bare
instance_id_to_run_bare-ins id bare h = rw h refl

-- The instance id of a run whose id has its prefix leads back to the bare id of the run.
pub instance_id_to_run_bare-run_id_to_instance_id :
    (bare : String) → instance_id_to_run_bare (run_id_to_instance_id (add_prefix "run" bare)) ≡ bare
unfolding instance_id_to_run_bare run_id_to_instance_id
instance_id_to_run_bare-run_id_to_instance_id bare =
    ap (λ o. instance_id_to_run_bare (template ("ins_" ∷ get_or o (add_prefix "run" bare) ∷ [])))
      (after_prefix-add "run" bare)
    ∙ instance_id_to_run_bare-ins _ bare
        (after_prefix-append "ins_" (template (bare ∷ [])) ∙ ap some (template-one bare))

-- An id that has the prefix of a space has the same bare id for the store and for admission.
pub bare_space_id-add_prefix : (bare : String) → bare_space_id (add_prefix "spc" bare) ≡ bare
bare_space_id-add_prefix bare =
    ap (λ o. get_or o (add_prefix "spc" bare)) (after_prefix-add "spc" bare)

pub strip_prefix-add_prefix : (bare : String) → strip_prefix (add_prefix "spc" bare) ≡ bare
unfolding after_underscore
strip_prefix-add_prefix bare =
    ap (λ o. get_or o (add_prefix "spc" bare))
      (after_underscore-append "spc" (template (bare ∷ [])) refl ∙ ap some (template-one bare))
