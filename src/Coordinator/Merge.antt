-- ===== src/Coordinator/Merge.antt =====
-- mergeSummaryWithDetail, and the status part of a websocket event, in sourceUpdateCoordinator.ts.
pub mod Laws
use glanceus.Prelude.{
  ℕ, ◌≡◌, refl, String, Bool, true, false, not, ◌&&◌, ◌||◌, Option, none, some, List, [], ◌∷◌,
  str_eq, if◌then◌else◌,
}
use glanceus.Prelude.Int.{Num, finite, pos}
use glanceus.Prelude.Value.{
  Value, undefined, null, boolean, number, string, array, object, or_undefined, coalesce, strict_eq,
}
use glanceus.Prelude.Dict.{lookup, has}
use glanceus.Coordinator.State.{
  Summary, Detail, to_numeric_timestamp, ltb_Num, normalize_optional_string,
  normalize_optional_interaction,
}

-- `nextStatus !== "error"` and `nextStatus !== "error" && nextStatus !== "suspended"`.
abbrev pub is_error : Value → Bool
is_error status = strict_eq status (string "error")

abbrev pub is_error_or_suspended : Value → Bool
is_error_or_suspended status = is_error status || strict_eq status (string "suspended")

-- `toNumericTimestamp(v) ?? w ?? undefined`.
abbrev pub stamp_or : Option Num → Value → Value
stamp_or (some n) summary_stamp = number n
stamp_or none summary_stamp = coalesce summary_stamp undefined

unfoldable pub resolve_updated_at : Value → Value → Value
resolve_updated_at detail_stamp summary_stamp =
    stamp_or (to_numeric_timestamp detail_stamp) summary_stamp

-- `detailUpdatedAt >= summaryUpdatedAt`, where a summary without a timestamp counts as 0 and a
-- detail without one is always written back.
abbrev pub is_not_before : Option Num → Option Num → Bool
is_not_before none s = true
is_not_before (some d) none = not (ltb_Num d (finite (pos 0)))
is_not_before (some d) (some s) = not (ltb_Num d s)

unfoldable pub should_write_back : Value → Value → Bool
should_write_back detail_updated_at summary_stamp =
    is_not_before (to_numeric_timestamp detail_updated_at) (to_numeric_timestamp summary_stamp)

-- A field that a detail overrides when it has it: present and normalised, or kept, or cleared
-- where the new status does not go with it.
unfoldable pub next_field : Bool → Value → Bool → Value → Value
next_field has_field from_detail keep from_summary =
    if has_field then from_detail else if keep then from_summary else undefined

unfoldable pub is_present : Value → Bool
is_present undefined = false
is_present null = false
is_present _ = true

unfoldable pub next_last_success_at : Bool → Value → Bool → Value → Value → Value
unfolding to_numeric_timestamp
next_last_success_at has_field from_detail next_has_data detail_updated_at from_summary =
    if has_field
    then elim (to_numeric_timestamp from_detail) [ none ↦ null | some n ↦ number n ]
    else if next_has_data
    then coalesce detail_updated_at from_summary
    else from_summary

-- A property of the detail record, and whether it has it (hasOwn).
abbrev pub read : String → Detail → Value
read key detail = or_undefined (lookup key detail)

-- The summary that is written back.
unfoldable pub written_back : Summary → Detail → Value → Summary
unfolding next_field is_present next_last_success_at
written_back summary detail detail_updated_at =
    let next_status = coalesce (normalize_optional_string (read "status" detail)) summary.status in
    let next_message =
      next_field (has "message" detail) (normalize_optional_string (read "message" detail)) true
        summary.message in
    let next_has_data =
      if has "data" detail then is_present (read "data" detail) else summary.has_data in
    record summary {
      updated_at = detail_updated_at;
      status = next_status;
      message = next_message;
      error =
          next_field (has "error" detail) (normalize_optional_string (read "error" detail))
            (is_error next_status) summary.error;
      error_code =
          next_field (has "error_code" detail)
            (normalize_optional_string (read "error_code" detail))
            (is_error_or_suspended next_status) summary.error_code;
      error_details =
          if is_error next_status then coalesce next_message summary.error_details else undefined;
      interaction =
          next_field (has "interaction" detail)
            (normalize_optional_interaction (read "interaction" detail))
            (is_error_or_suspended next_status) summary.interaction;
      has_data = next_has_data;
      last_success_at =
          next_last_success_at (has "last_success_at" detail) (read "last_success_at" detail)
            next_has_data detail_updated_at summary.last_success_at;
    }

-- mergeSummaryWithDetail.
unfoldable pub merge_summary_with_detail : Summary → Detail → Summary
merge_summary_with_detail summary detail =
    let detail_updated_at = resolve_updated_at (read "updated_at" detail) summary.updated_at in
    if should_write_back detail_updated_at summary.updated_at
    then written_back summary detail detail_updated_at
    else summary

-- What handleWebSocketEvent does to one summary: `code` is the event's error_code, if it has one.
unfoldable pub apply_event_status : Value → Option Value → Summary → Summary
apply_event_status status code summary =
    let resolved_status = coalesce (normalize_optional_string status) summary.status in
    record summary {
      status = resolved_status;
      error_code = elim code [
        | some v ↦ normalize_optional_string v
        | none ↦ if is_error_or_suspended resolved_status then summary.error_code else undefined
      ];
    }
