-- ===== src/Lib.antt =====
-- HomeLabHQ: the backend's core logic.
--
-- The program watches the devices of a home network. A poller reads every device, debounces its
-- reachability, evaluates its alert rules and appends to history files; client discovery merges
-- what the drivers see on the network and keeps a roster of known clients per owner; a daily check
-- for updates runs under a lock with a lease; maintenance jobs run on compute instances, in one
-- sequence at a time for each; an interval scheduler starts the monitoring jobs; users get push
-- subscriptions and durable notifications; accounts and sessions guard the interface. All durable
-- state is one JSON document that backend/store.py updates under a lock, so an operation is a
-- function from the document to the document here.
--
-- Which file models which part:
--   Domain      the records of backend/domain.py that the poller uses
--   Poller      backend/poller.py: Poller/Alerts is `_eval_alerts`, Poller/Record is `_apply_record`
--               and `_record_device_metric`, Poller/Append is `_append_history` with `series` of
--               backend/history.py
--   Clients     Clients/Merge is `merge_observations` of backend/client_merge.py, Clients/Roster
--               the roster of backend/client_roster.py
--   Updates     Updates/Lease is the lock and the runs of backend/morning_updates.py, Updates/Report
--               its `aggregate`, Updates/Reboot `reboot_status` of backend/device_updates.py
--   Push        backend/push.py: Push/Subscriptions, Push/Category and Push/Notifications are the
--               subscriptions, the category of a notification and the durable notifications
--   Compute     backend/compute_maintenance.py: Compute/Jobs is the job records with `_start_jobs`
--               and `recover_interrupted_jobs`, Compute/Discovery `_set_job` with the compaction
--               of backend/store.py, Compute/Threads what the threads of `_run_job_sequence` write
--               to the jobs as a step relation, Compute/Sequences a sequence that runs to its end
--   Dashboards  backend/dashboards.py
--   Inventory   the groups in `_inventory_records` of backend/ansible_integration.py
--   Vpn         `_update_alert_state` of backend/vpn_endpoint_service.py
--   Scheduler   the interval scheduler of backend/monitoring_scheduler.py as a step relation
--   Prune       `_prune_oldest` of backend/store.py, and dropping the first of the chosen records
--               as push.py and compute_maintenance.py do
--   Auth        backend/auth.py: Auth/Document is the part of the document it uses, Auth/Throttle
--               the login throttle, Auth/Users the accounts, Auth/Sessions logins and tokens
--   Authorization
--               the visibility policy of backend/authorization.py
--   Errors      the exceptions of backend/errors.py, as the results of operations
--   Base, Dict  texts, lists, tests, and Python's dictionaries as lists of items
--   Tests       the theorems at concrete inputs, and runs of the model
--
-- Parameters, for what Python and its libraries compute: a type N of numbers with its order, the
-- printing of a time (`utc_at`), scrypt and SHA-256 (the record `Crypto`), random ids and tokens,
-- and the readings of the clock. Where the code compares an integer with the unrounded clock, the
-- model's reading is the clock rounded up, which gives the same comparison. Settings that the
-- environment gives, such as OFFLINE_AFTER and MAX_SESSIONS, are arguments. `lower` (also for
-- `casefold`) and `upper` change ASCII letters only. Loops are structural recursion. Only
-- `visit` of Inventory has fuel, the depth of its recursion: the number of groups and two are
-- enough, since a group is visited only outside its own visit.
--
-- Threads are modelled by the steps that they take on the document, a step being one update under
-- its lock; the scheduler counts time in any unit as fine as its clock, of which `tick` make
-- 0.01 seconds. `login` and `record_nac_observations`, which use two transactions, are one step.
--
-- Not modelled: thread primitives and file locks, the migrations of the document, the parsers of
-- playbook output, network and file input and output, the device drivers, the web interface, log
-- lines, and values of a type that the callers never pass.
pub mod Base
pub mod Dict
pub mod Domain
pub mod Auth
pub mod Authorization
pub mod Clients
pub mod Compute
pub mod Dashboards
pub mod Errors
pub mod Inventory
pub mod Poller
pub mod Prune
pub mod Push
pub mod Scheduler
pub mod Updates
pub mod Vpn
pub mod Tests
