-- ===== src/Hub/Runs/Apply.antt =====
-- Applying a configuration to a space, under the guard of the space:
-- packages/hub-daemon/src/routes/spaces/index.ts, and replaceSpaceIndex of
-- packages/hub-persistence/src/memory.ts.
use murrmure.Prelude.{String, Bool, Option, none, some, [], ◌∷◌, not, keep, fold, template, ◌==◌}
use murrmure.Dict.{Dict, insert, string_key}
use murrmure.Hub.Ids.{bare_space_id}
use murrmure.Hub.Runs.{FlowIndexEntry, SpaceIndexSnapshot, Studio}
use murrmure.Hub.Runs.Admission.{SpaceApplyQuiescenceError, assert_space_quiescent}

abbrev pub flow_index_key : (origin_space_id flow_id : String) → String
flow_index_key origin flow_id = template (bare_space_id origin ∷ ":" ∷ flow_id ∷ [])

abbrev pub drop_origin : String → Dict String FlowIndexEntry → Dict String FlowIndexEntry
drop_origin bare entries = keep (λ e. not (bare_space_id e.1.origin_space_id == bare)) entries

abbrev pub add_entry : Dict String FlowIndexEntry → FlowIndexEntry → Dict String FlowIndexEntry
add_entry entries e = insert (flow_index_key e.origin_space_id e.flow_id) e entries

unfoldable pub replace_space_index : String → SpaceIndexSnapshot → Studio → Studio
replace_space_index space_id snapshot s = record {
  runs = s.runs;
  sessions = s.sessions;
  space_index = insert (bare_space_id space_id) snapshot s.space_index;
  flow_index = fold add_entry (drop_origin (bare_space_id space_id) s.flow_index) snapshot.flows;
}

pub data ApplyResult : Type 0 where
  not_quiescent : SpaceApplyQuiescenceError → ApplyResult
  rejected applied : ApplyResult

abbrev pub commit_candidate : String → Option SpaceIndexSnapshot → Studio → ApplyResult × Studio
commit_candidate space_id none s = (ApplyResult.rejected, s)
commit_candidate space_id (some snapshot) s =
    (ApplyResult.applied, replace_space_index space_id snapshot s)

abbrev pub apply_quiet :
    Option SpaceApplyQuiescenceError
    → String
    → (Studio → Option SpaceIndexSnapshot)
    → Studio
    → ApplyResult × Studio
apply_quiet (some error) space_id candidate s = (ApplyResult.not_quiescent error, s)
apply_quiet none space_id candidate s = commit_candidate space_id (candidate s) s

-- `candidate` is the index that the bundle leads to from the present one, or none when the bundle
-- is refused.
unfoldable pub apply_space :
    (String → String → Bool)
    → String
    → (Studio → Option SpaceIndexSnapshot)
    → Studio
    → ApplyResult × Studio
apply_space before space_id candidate s =
    let bare = bare_space_id space_id in
    apply_quiet (assert_space_quiescent before bare s) bare candidate s
