-- ===== src/Heartbeat/Indicator.antt =====
-- crates/heartbeat/src/indicator.rs: the status of a run and the indicator shown for it.
use clawpod.Base.{Bool, Option, none, some, if◌then◌else◌}
use clawpod.Domain.Beat.{HeartbeatIndicatorType}
use clawpod.Heartbeat.Normalize.{NormalizeResult, ack_only, ok_with_text, alert}

pub data HeartbeatEventStatus : Type 0 where
  ok_empty ok_token sent delivery_warning failed skipped : HeartbeatEventStatus

-- `resolve_indicator_type`.
unfoldable pub resolve_indicator_type : HeartbeatEventStatus → Option HeartbeatIndicatorType
resolve_indicator_type ok_empty = some HeartbeatIndicatorType.ok
resolve_indicator_type ok_token = some HeartbeatIndicatorType.ok
resolve_indicator_type sent = some HeartbeatIndicatorType.sent
resolve_indicator_type delivery_warning = some HeartbeatIndicatorType.alert
resolve_indicator_type failed = some HeartbeatIndicatorType.error
resolve_indicator_type skipped = none

unfoldable pub status_of : NormalizeResult → Bool → HeartbeatEventStatus
status_of ack_only delivered = ok_empty
status_of (ok_with_text t) delivered = ok_token
status_of (alert t) delivered = if delivered then sent else ok_token

-- `derive_event_status`.
unfoldable pub derive_event_status : NormalizeResult → Bool → Bool → Bool → HeartbeatEventStatus
unfolding status_of
derive_event_status normalized delivered has_delivery_issue has_failed =
    if has_failed
    then failed
    else if has_delivery_issue
    then delivery_warning
    else status_of normalized delivered
