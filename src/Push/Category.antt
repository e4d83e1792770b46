-- ===== src/Push/Category.antt =====
-- `_notification_category` of backend/push.py.
use home_lab_hq.Base.{String, not, ◌==◌, ◌||◌, ◌&&◌, if◌then◌else◌, strip, lower, has_part, clip}
use Prim.Native.String

-- What the code reads of `data`, `data.get(key) or ""`, and the whole of it as a text.
pub record NotificationData : Type 0 where
  pub category : String
  pub type_name : String
  pub key : String
  pub copy : String

-- `text or default`
unfoldable pub text_or : String → String → String
text_or fallback s = if s == "" then fallback else s

normal : String → String
normal s = lower (strip s)

alert_category : String → String
alert_category key =
    if has_part "cpu" key
    then "high_cpu"
    else if key == "mem"
        || key == "memory"
        || key == "mem_used"
        || key == "mem_used_pct"
        || has_part "memory" key
    then "high_memory"
    else if has_part "storage" key
        || has_part "disk" key
        || has_part "pool" key
        || has_part "capacity" key
    then "storage_warning"
    else "alert"

joined : String → String → String
joined title body = Prim.Native.String.◌++◌ title (Prim.Native.String.◌++◌ " " body)

unfoldable pub notification_category : String → String → NotificationData → String
unfolding joined normal alert_category text_or
notification_category title body payload =
    let explicit = normal payload.category in
    let event_type = normal payload.type_name in
    let text = lower (joined title body) in
    if not (explicit == "")
    then clip 80 explicit
    else if event_type == "offline"
    then "host_offline"
    else if event_type == "online"
    then "host_online"
    else if event_type == "alert"
    then alert_category (normal payload.key)
    else if event_type == "available_updates" || event_type == "updates" || has_part "updates" text
    then "available_updates"
    else if event_type == "backup_failure" || (has_part "backup" text && has_part "fail" text)
    then "backup_failure"
    else text_or "general" (clip 80 event_type)
