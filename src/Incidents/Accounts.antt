-- ===== src/Incidents/Accounts.antt =====
-- Every foreign log record is accounted for (backend/bl_haos/incidents.py: emit, sample).
use bl_haos_bridge.Prelude.{
  ℕ, ◌+◌, ◌/◌, ◌≤◌, ◌≡◌, refl, Bool, true, false, List, [], ◌∷◌, if◌then◌else◌, arith, Bool-cases,
  inl, inr,
}
use bl_haos_bridge.Dict.{Text, lookup, insert}
use bl_haos_bridge.Text.{starts_with}
use bl_haos_bridge.Incidents.{
  Counts, counted, emit, category, own_name, Files, append, Recorder, Entry, Disk, Sampled, sample,
  saved, stored, is_quiet, is_empty, Observed,
}

unfoldable pub total : Counts → ℕ
total [] = 0
total ((key, n) ∷ counts) = n + total counts

total-counted : (key : Text) (counts : Counts) → total (counted key counts) ≡ total counts + 1
unfolding total lookup insert
total-counted key [] = omega arith
total-counted key ((k, n) ∷ counts) = ground (arith, total-counted key counts)

-- A record of the recorder's own logger is not counted.
pub foreign : Text → ℕ
foreign name = if starts_with own_name name then 0 else 1

total-emit :
    (name message : Text) (counts : Counts)
    → total (emit name message counts) ≡ total counts + foreign name
unfolding emit foreign
total-emit name message counts = ground (arith, total-counted (category message) counts)

module _ {Context : Type 0} (same : Context → Context → Bool) (observed : Context → Observed) where
  -- What happens to a recorder.
  pub data Action : Type 0 where
    logs : Text → Text → Action
    samples : Bool → ℕ → Context → Disk same observed → Action

  pub record Trace : Type 0 where
    pub recorder : Recorder same observed
    pub files : Files
    pub entries : List (Entry same observed)
    pub lost : ℕ

  abbrev pub noted : Sampled same observed → List (Entry same observed) → List (Entry same observed)
  noted (Sampled.written entry) entries = entry ∷ entries
  noted _ entries = entries

  -- An exception at the write loses what was counted.
  abbrev pub lost_by : Sampled same observed → Counts → ℕ → ℕ
  lost_by Sampled.interrupted counts lost = total counts + lost
  lost_by _ counts lost = lost

  pub act : Action → Trace → Trace
  unfolding total
  act (logs name message) t = record t {
    recorder = record t.recorder { counts = emit name message t.recorder.counts };
  }
  act (samples force now c disk) t =
      let (r, files, how) = sample same observed force now c disk t.recorder t.files in
      record {
        recorder = r;
        files = files;
        entries = noted how t.entries;
        lost = lost_by how t.recorder.counts t.lost;
      }

  unfoldable pub run : List Action → Trace → Trace
  unfolding act
  run [] t = t
  run (action ∷ actions) t = run actions (act action t)

  pub entries_total : List (Entry same observed) → ℕ
  unfolding total
  entries_total [] = 0
  entries_total (entry ∷ entries) = total entry.patterns_seen + entries_total entries

  -- The foreign records among the actions.
  pub logged : List Action → ℕ
  unfolding foreign
  logged [] = 0
  logged (logs name message ∷ actions) = foreign name + logged actions
  logged (samples force now c disk ∷ actions) = logged actions

  abbrev pub accounted : Trace → ℕ
  accounted t = entries_total t.entries + total t.recorder.counts + t.lost

  -- A step drops nothing from the accounts unless it counts a drop.
  abbrev Kept : ℕ → Trace → Trace → Type 0
  Kept new t t' =
      (t.recorder.dropped ≤ t'.recorder.dropped)
      × (t'.recorder.dropped ≡ t.recorder.dropped → accounted t' ≡ accounted t + new)

  stored-Kept :
      (now : ℕ) (c : Context) (t : Trace) (files : Files) (written : Bool)
      → let (r, f, how) = stored same observed now c t.recorder (files, written) in
        Kept 0 t (record {
          recorder = r;
          files = f;
          entries = noted how t.entries;
          lost = lost_by how t.recorder.counts t.lost;
        })
  unfolding entries_total
  stored-Kept now c t files true = (omega arith, λ e. omega arith)
  stored-Kept now c t files false = (omega arith, λ e. absurd (omega (arith, e)))

  saved-Kept :
      (now : ℕ) (c : Context) (disk : Disk same observed) (t : Trace)
      → let (r, f, how) = saved same observed now c disk t.recorder t.files in
        Kept 0 t (record {
          recorder = r;
          files = f;
          entries = noted how t.entries;
          lost = lost_by how t.recorder.counts t.lost;
        })
  unfolding entries_total
  saved-Kept now c (Disk.takes bytes) t =
      stored-Kept now c t (append (now / 86400) bytes t.files).0
        (append (now / 86400) bytes t.files).1
  saved-Kept now c (Disk.fails left) t = (omega arith, λ e. absurd (omega (arith, e)))
  saved-Kept now c (Disk.interrupts left) t = (omega arith, λ e. omega arith)

  quiet-Kept :
      (force : Bool) (now : ℕ) (c : Context) (t : Trace)
      → is_quiet same observed force now c t.recorder ≡ true
      → Kept 0 t (record t { recorder = record t.recorder { counts = [] } })
  unfolding total
  quiet-Kept force now c t h =
      let nothing : is_empty t.recorder.counts ≡ true = ground arith in
      (omega arith, λ e. omega (arith, empty t.recorder.counts nothing))
    where
      empty : (counts : Counts) → is_empty counts ≡ true → total counts ≡ 0
      empty [] k = refl
      empty (entry ∷ counts) k = cc

  samples-Kept :
      (force : Bool) (now : ℕ) (c : Context) (disk : Disk same observed) (t : Trace)
      → Kept 0 t (act (samples force now c disk) t)
  unfolding act sample
  samples-Kept force now c disk t =
      elim (Bool-cases (is_quiet same observed force now c t.recorder)) [
        | inl h ↦ rw h (quiet-Kept force now c t h)
        | inr h ↦ rw h (saved-Kept now c disk t)
      ]

  logs-Kept : (name message : Text) (t : Trace) → Kept (foreign name) t (act (logs name message) t)
  unfolding act
  logs-Kept name message t =
      (omega arith, λ e. omega (arith, total-emit name message t.recorder.counts))

  run-Kept : (actions : List Action) (t : Trace) → Kept (logged actions) t (run actions t)
  unfolding run logged
  run-Kept [] t = (omega arith, λ e. omega arith)
  run-Kept (logs name message ∷ actions) t =
      let k = logs-Kept name message t in
      let m = run-Kept actions (act (logs name message) t) in
      (
        omega (arith, k.0, m.0),
        λ e. omega (arith, k.1 (omega (arith, k.0, m.0, e)), m.1 (omega (arith, k.0, m.0, e))),
      )
  run-Kept (samples force now c disk ∷ actions) t =
      let k = samples-Kept force now c disk t in
      let m = run-Kept actions (act (samples force now c disk) t) in
      (
        omega (arith, k.0, m.0),
        λ e. omega (arith, k.1 (omega (arith, k.0, m.0, e)), m.1 (omega (arith, k.0, m.0, e))),
      )

  -- Over any sequence of log records and samples, with any context, disk and clock, as long as
  -- no sample is counted as dropped, every record that is not the recorder's own is counted
  -- exactly once: in an entry that was written, in the counts still to come, or with the
  -- samples whose write was cancelled or raised another error than OSError.
  pub run-accounted :
      (actions : List Action) (t : Trace)
      → (run actions t).recorder.dropped ≡ t.recorder.dropped
      → entries_total (run actions t).entries
          + total (run actions t).recorder.counts
          + (run actions t).lost
        ≡ entries_total t.entries + total t.recorder.counts + t.lost + logged actions
  run-accounted actions t e = (run-Kept actions t).1 e
