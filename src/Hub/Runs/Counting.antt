-- ===== src/Hub/Runs/Counting.antt =====
-- How many rows of the in-memory store of the hub pass a test: the filters of listRuns in
-- packages/hub-persistence/src/memory.ts.
use murrmure.Prelude.{
  ℕ, suc, ◌≤◌, ◌≡◌, refl, ap, ◌∙◌, String, Bool, true, false, ◌&&◌, List, [], ◌∷◌, if◌then◌else◌,
  arith, keep, length, non_empty,
}
use murrmure.Dict.{Dict, insert, values, string_key}
use murrmure.Hub.Runs.{
  RunRow, Studio, RunFilter, in_space, of_flow, has_lifecycle, place, newest_first, list_runs,
}

abbrev pub count : (RunRow → Bool) → List RunRow → ℕ
count p [] = 0
count p (r ∷ rows) = let rest = count p rows in if p r then suc rest else rest

length-place :
    (before : String → String → Bool) (r : RunRow) (rows : List RunRow)
    → length (place before r rows) ≡ suc (length rows)
unfolding place
length-place before r [] = refl
length-place before r (s ∷ rows) = ground (arith, length-place before r rows)

length-newest_first :
    (before : String → String → Bool) (rows : List RunRow)
    → length (newest_first before rows) ≡ length rows
unfolding newest_first
length-newest_first before [] = refl
length-newest_first before (r ∷ rows) =
    length-place before r (newest_first before rows) ∙ ap suc (length-newest_first before rows)

keep-keep :
    (p q : RunRow → Bool) (rows : List RunRow) → keep p (keep q rows) ≡ keep (λ r. q r && p r) rows
keep-keep p q [] = refl
keep-keep p q (r ∷ rows) = ground (arith, keep-keep p q rows)

length-keep : (p : RunRow → Bool) (rows : List RunRow) → length (keep p rows) ≡ count p rows
length-keep p [] = refl
length-keep p (r ∷ rows) = ground (arith, length-keep p rows)

-- The test of a filter.
abbrev pub passes : RunFilter → RunRow → Bool
passes filter r =
    (in_space (non_empty filter.space_id) r && of_flow (non_empty filter.flow_id) r)
    && has_lifecycle filter.lifecycles r

pub length-list_runs :
    (before : String → String → Bool) (filter : RunFilter) (s : Studio)
    → length (list_runs before filter s) ≡ count (passes filter) (values s.runs)
unfolding list_runs
length-list_runs before filter s =
    length-newest_first before _
    ∙ ap length (
        ap (keep (has_lifecycle filter.lifecycles)) (
          keep-keep (of_flow (non_empty filter.flow_id)) (in_space (non_empty filter.space_id))
            (values s.runs))
        ∙ keep-keep (has_lifecycle filter.lifecycles)
            (λ r. in_space (non_empty filter.space_id) r && of_flow (non_empty filter.flow_id) r)
            (values s.runs))
    ∙ length-keep (passes filter) (values s.runs)

pub count-insert :
    (p : RunRow → Bool) (k : String) (row : RunRow) (m : Dict String RunRow)
    → count p (values (insert k row m)) ≤ suc (count p (values m))
unfolding insert
count-insert p k row [] = ground arith
count-insert p k row ((j, r) ∷ m) = ground (arith, count-insert p k row m)

-- A row that fails the test does not add to the count.
pub count-insert_other :
    (p : RunRow → Bool) (k : String) (row : RunRow) (m : Dict String RunRow)
    → p row ≡ false
    → count p (values (insert k row m)) ≤ count p (values m)
unfolding insert
count-insert_other p k row [] h = ground (arith, h)
count-insert_other p k row ((j, r) ∷ m) h = ground (arith, h, count-insert_other p k row m h)

pub count-weaker :
    (p q : RunRow → Bool) (rows : List RunRow)
    → ((r : RunRow) → p r ≡ true → q r ≡ true)
    → count p rows ≤ count q rows
count-weaker p q [] h = omega arith
count-weaker p q (r ∷ rows) h = ground (arith, h r, count-weaker p q rows h)
