-- ===== src/Health/Tests.antt =====
-- Runs of the views' functions, and instances of the theorems.
use messk.Prelude.{◌≡◌, refl, true, none, some, List, [], ◌∷◌, Text, codes, decimal}
use messk.Prelude.Int.{pos}
use messk.Prelude.Number.{Number}
use messk.Health.Connection.{
  ConnectionHealthInput, ConnectionHealthItem, ConnectionHealthStatus, ConnectionHealthThreadKind,
  SyncState, build_connection_health_items, connection_items, direct_items, room_items, sync_items,
  safe_count, room_label, pluralize, sync_error_item, capitalize,
}
use messk.Health.LocalKey.{format_database_scope, last_8}
use messk.Health.UiError.{
  UiErrorScope, Thrown, get_safe_ui_error_report, is_safe_error_name, to_safe_error_name,
  report-is_safe, IsShort,
}

abbrev waiting : ConnectionHealthInput
waiting = record {
  connection_status = ConnectionHealthStatus.connected;
  thread_kind = ConnectionHealthThreadKind.channel;
  queued_direct_count = none;
  queued_direct_attempts = none;
  queued_room_event_count = some (Number.int (pos 2));
  collection_sync_status = some (record { state = SyncState.error; error = some (codes "500") });
}

abbrev titles : List ConnectionHealthItem → List Text
titles [] = []
titles (item ∷ items) = item.title ∷ titles items

waiting_test :
    titles (build_connection_health_items waiting)
    ≡ codes "2 channel events queued for reconnect" ∷ (codes "Channel metadata needs refresh" ∷ [])
unfolding build_connection_health_items connection_items direct_items room_items sync_items
    safe_count room_label pluralize sync_error_item capitalize decimal
waiting_test = refl

database_test :
    format_database_scope (codes "messk-0123456789abcdef")
    ≡ codes "Identity-scoped vault (...89abcdef)"
unfolding format_database_scope last_8
database_test = refl

abbrev thrown : Thrown
thrown = Thrown.an_error (codes "Error: key=\"secret\"") (codes "secret")

error_test :
    (get_safe_ui_error_report UiErrorScope.app thrown none).error_name ≡ codes "UnknownError"
unfolding get_safe_ui_error_report to_safe_error_name is_safe_error_name
error_test = refl

report-is_safe_example :
    (is_safe_error_name
        (get_safe_ui_error_report UiErrorScope.app thrown (some (codes "at Chat"))).error_name
      ≡ true)
    × IsShort
        (get_safe_ui_error_report UiErrorScope.app thrown (some (codes "at Chat"))).component_stack
report-is_safe_example = report-is_safe UiErrorScope.app thrown (some (codes "at Chat"))
