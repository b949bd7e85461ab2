-- ===== src/Hub/Policy/Required.antt =====
-- Which capability a kind of command requires: CAPABILITY_MAP of
-- packages/hub-core/src/ports/policy.ts, read by capability.
use murrmure.Prelude.{
  ◌≡◌, refl, sym, ◌∙◌, subst, String, true, false, Option, none, some, List, [], ◌∷◌, if◌then◌else◌,
  arith, ◌==◌, eq_iff, Bool-cases, inl, inr, All,
}
use murrmure.Dict.{Dict, lookup, string_key}
use murrmure.Hub.Sets.{has}
use murrmure.Hub.Queue.Tasks.{keys}
use murrmure.Hub.Policy.{capability_map, required_capability}

-- The kinds of commands by the capability that they require.
abbrev pub admin_kinds : List String
admin_kinds = "space.create" ∷ "grant.mint" ∷ "grant.revoke" ∷ "federation.emit" ∷ []

abbrev pub run_kinds : List String
run_kinds =
    "aggregate.create" ∷ "state.transition" ∷ "instance.create" ∷ "instance.metadata.patch"
    ∷ "gate.resolve" ∷ []

abbrev pub emit_kinds : List String
emit_kinds = "event.append" ∷ []

abbrev pub read_kinds : List String
read_kinds = "wait.register" ∷ "wait.cancel" ∷ "query.ask" ∷ "query.answer" ∷ []

abbrev pub write_kinds : List String
write_kinds = "trigger.register" ∷ "trigger.schedule" ∷ "blob.write" ∷ []

abbrev pub required_for : String → Option String
required_for kind =
    if has kind admin_kinds
    then some "hub:admin"
    else if has kind run_kinds
    then some "flow:run"
    else if has kind emit_kinds
    then some "event:emit"
    else if has kind read_kinds
    then some "space:read"
    else if has kind write_kinds
    then some "space:write"
    else none

lookup-absent :
    (kind : String) (m : Dict String String) → has kind (keys m) ≡ false → lookup kind m ≡ none
unfolding lookup
lookup-absent kind [] h = refl
lookup-absent kind ((k, c) ∷ m) h = ground (arith, h, lookup-absent kind m)

-- Two functions that agree on some texts, and on those that are none of them, agree.
agree-keys :
    (f g : String → Option String) (ks : List String) (kind : String)
    → All (λ k. f k ≡ g k) ks
    → (has kind ks ≡ false → f kind ≡ g kind)
    → f kind ≡ g kind
agree-keys f g [] kind known absent = absent refl
agree-keys f g (k ∷ ks) kind known absent = elim (Bool-cases (k == kind)) [
  | inl y ↦ subst (λ x. f x ≡ g x) ((eq_iff k kind).0 y) known.0
  | inr n ↦ agree-keys f g ks kind known.1 (λ h. absent (rw n h))
]

has-part :
    (kind : String) (part whole : List String)
    → All (λ x. has x whole ≡ true) part
    → has kind whole ≡ false
    → has kind part ≡ false
has-part kind [] whole all h = refl
has-part kind (x ∷ part) whole all h = elim (Bool-cases (x == kind)) [
  | inl y ↦
      let found = subst (λ k. has k whole ≡ true) ((eq_iff x kind).0 y) all.0 in
      absurd (ground (arith, found, h))
  | inr n ↦ rw n (has-part kind part whole all.1 h)
]

absent-required_for :
    (kind : String) → has kind (keys capability_map) ≡ false → required_for kind ≡ none
absent-required_for kind h =
    let all = keys capability_map in
    rw
      (
        has-part kind admin_kinds all (refl, (refl, (refl, (refl, tt)))) h,
        has-part kind run_kinds all (refl, (refl, (refl, (refl, (refl, tt))))) h,
        has-part kind emit_kinds all (refl, tt) h,
        has-part kind read_kinds all (refl, (refl, (refl, (refl, tt)))) h,
        has-part kind write_kinds all (refl, (refl, (refl, tt))) h,
      )
      refl

pub required_for_lem : (kind : String) → required_capability kind ≡ required_for kind
unfolding required_capability lookup
required_for_lem kind =
    agree-keys required_capability required_for (keys capability_map) kind
      (
        refl,
        (
          refl,
          (
            refl,
            (
              refl,
              (
                refl,
                (
                  refl,
                  (
                    refl,
                    (
                      refl,
                      (refl, (refl, (refl, (refl, (refl, (refl, (refl, (refl, (refl, tt))))))))),
                    ),
                  ),
                ),
              ),
            ),
          ),
        ),
      )
      (λ h. lookup-absent kind capability_map h ∙ sym (absent-required_for kind h))
