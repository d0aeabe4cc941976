-- ===== src/Tests/Incidents.antt =====
-- Runs of the incident recorder (backend/bl_haos/incidents.py).
use bl_haos_bridge.Prelude.{
  ℕ, ◌+◌, ◌≡◌, refl, Bool, true, false, List, [], ◌∷◌, none, some, ◌==◌, arith,
}
use bl_haos_bridge.Dict.{Text}
use bl_haos_bridge.Text.{codes}
use bl_haos_bridge.Incidents.{
  Observed, Recorder, Disk, Files, category, emit, append, sample, findings_of,
}
use bl_haos_bridge.Incidents.Laws.{AreBounded, AreRecent, append-AreBounded}
use bl_haos_bridge.Incidents.Accounts.{
  Action, Trace, run, total, entries_total, logged, run-accounted,
}

busy_category : category (codes "Operation already In Progress") ≡ codes "connection_busy"
unfolding category bl_haos_bridge.Text.contains bl_haos_bridge.Text.lower
busy_category = refl

other_category : category (codes "hello") ≡ codes "backend_warning"
unfolding category bl_haos_bridge.Text.contains bl_haos_bridge.Text.lower
other_category = refl

own_ignored : emit (codes "bl_haos.incidents") (codes "sink") [] ≡ []
unfolding emit bl_haos_bridge.Text.starts_with
own_ignored = refl

abbrev files : Files
files = (19000, 12) ∷ (19100, 2097000) ∷ []

old_removed : append 19100 200 files ≡ ((19100, 2097000) ∷ [], false)
unfolding append
old_removed = refl

append-AreBounded_example :
    let (files', written) = append 19100 100 files in AreBounded files' × AreRecent 19100 files'
append-AreBounded_example = append-AreBounded 19100 100 files (omega arith, (omega arith, tt))

-- A context that is the number of clients.
abbrev same : ℕ → ℕ → Bool
same m n = m == n

abbrev observed : ℕ → Observed
observed n = record { native_clients = n; speakers_connected = []; components_failed = [] }

abbrev idle : Recorder same observed
idle = record { counts = []; previous = none; last_write = 0; dropped = 0; storage_error = false }

absent_found :
    findings_of same observed (some 1) 0 []
    ≡ codes "native_client_absent" ∷ codes "health_or_connection_changed" ∷ []
unfolding findings_of
absent_found = refl

abbrev begun : Trace same observed
begun = record { recorder = idle; files = []; entries = []; lost = 0 }

abbrev actions : List (Action same observed)
actions =
    Action.samples true 1000 1 (Disk.takes 300)
    ∷ Action.logs (codes "bl_haos.ha.player") (codes "playback died")
    ∷ Action.samples false 1005 1 (Disk.takes 300)
    ∷ Action.samples false 1010 1 (Disk.takes 300)
    ∷ Action.logs (codes "bl_haos.health") (codes "sink")
    ∷ Action.samples true 1020 1 (Disk.interrupts [])
    ∷ Action.logs (codes "bl_haos.health") (codes "sink")
    ∷ []

none_dropped : (run same observed actions begun).recorder.dropped ≡ begun.recorder.dropped
unfolding run sample emit bl_haos_bridge.Text.starts_with bl_haos_bridge.Dict.insert append
none_dropped = refl

one_lost : (run same observed actions begun).lost ≡ 1
unfolding run sample emit bl_haos_bridge.Text.starts_with bl_haos_bridge.Dict.insert append total
    bl_haos_bridge.Dict.lookup
one_lost = refl

run-accounted_example :
    entries_total same observed (run same observed actions begun).entries
      + total (run same observed actions begun).recorder.counts
      + (run same observed actions begun).lost
    ≡ entries_total same observed begun.entries
      + total begun.recorder.counts
      + begun.lost
      + logged same observed actions
run-accounted_example = run-accounted same observed actions begun none_dropped
