-- ===== src/Incidents.antt =====
-- The incident recorder (backend/bl_haos/incidents.py, IncidentRecorder): counted log records and
-- samples of the health contract, in bounded daily files. Days and seconds are numbers. The context
-- of a sample and its comparison are parameters, as are the length of a written line and a failing
-- disk.
pub mod Laws
pub mod Accounts
use bl_haos_bridge.Prelude.{
  ◌>>=◌, ℕ, suc, ◌+◌, ◌-◌, ◌/◌, Bool, true, false, not, ◌&&◌, ◌||◌, List, [], ◌∷◌, ◌++◌, Option,
  none, some, ltb, leb, ◌==◌, if◌then◌else◌, any, map, select, is_some,
}
use bl_haos_bridge.Dict.{Text, Dict, lookup, insert}
use bl_haos_bridge.Text.{codes, lower, contains, starts_with}

abbrev pub retention_days : ℕ
retention_days = 30

abbrev pub daily_bytes : ℕ
daily_bytes = 2097152

abbrev own_name : Text
own_name = codes "bl_haos.incidents"

-- The patterns of `emit`: a category and its marker.
abbrev pub patterns : List (Text × Text)
patterns =
    (codes "reconnect_exhausted", codes "tripping circuit breaker")
    ∷ (codes "connection_busy", codes "in progress")
    ∷ (codes "link_unreachable", codes "br-connection")
    ∷ (codes "sink_missing", codes "sink")
    ∷ (codes "playback_failure", codes "playback")
    ∷ []

pub category_in : Text → List (Text × Text) → Text
category_in message [] = codes "backend_warning"
category_in message ((key, marker) ∷ rest) =
    if contains marker message then key else category_in message rest

unfoldable pub category : Text → Text
unfolding category_in
category message = category_in (lower message) patterns

-- A `Counter`
abbrev pub Counts : Type 0
Counts = Dict ℕ

abbrev pub count_of : Option ℕ → ℕ
count_of none = 0
count_of (some n) = n

abbrev pub counted : Text → Counts → Counts
counted key counts = insert key (suc (count_of (lookup key counts))) counts

unfoldable pub emit : Text → Text → Counts → Counts
unfolding category
emit name message counts =
    if starts_with own_name name then counts else counted (category message) counts

-- The daily files: each day with the size of its file.
abbrev pub Files : Type 0
Files = List (ℕ × ℕ)

abbrev pub size_of : ℕ → Files → ℕ
size_of day [] = 0
size_of day ((d, size) ∷ files) = if d == day then size else size_of day files

pub grown : ℕ → ℕ → Files → Files
grown day bytes [] = (day, bytes) ∷ []
grown day bytes ((d, size) ∷ files) =
    if d == day then (d, size + bytes) ∷ files else (d, size) ∷ grown day bytes files

-- `_append`: old files go first, then the line is written if the day has room for it. The flag is
-- the result.
unfoldable pub append : ℕ → ℕ → Files → Files × Bool
unfolding grown
append today bytes files =
    let kept = select (λ file. leb (today - (retention_days - 1)) file.0) files in
    if ltb daily_bytes (size_of today kept + bytes)
    then (kept, false)
    else (grown today bytes kept, true)

-- What a sample is made of, for its findings.
pub record Observed : Type 0 where
  pub native_clients : ℕ
  pub speakers_connected : List Bool
  pub components_failed : List Bool

abbrev is_empty : Counts → Bool
is_empty [] = true
is_empty _ = false

module _ {Context : Type 0} (same : Context → Context → Bool) (observed : Context → Observed) where
  pub record Recorder : Type 0 where
    pub counts : Counts
    pub previous : Option Context
    pub last_write : ℕ
    pub dropped : ℕ
    pub storage_error : Bool

  abbrev pub is_previous : Option Context → Context → Bool
  is_previous none c = false
  is_previous (some p) c = same c p

  -- One line of a daily file. `is_start` is the kind `monitor_started`.
  pub record Entry : Type 0 where
    pub timestamp : ℕ
    pub is_start : Bool
    pub patterns_seen : Counts
    pub context : Context
    pub dropped_observations : ℕ
    pub findings : List Text

  -- `findings.append(name)` if the test holds
  abbrev finding : Bool → Text → List Text
  finding true name = name ∷ []
  finding false name = []

  unfoldable pub findings_of : Option Context → Context → Counts → List Text
  findings_of previous c counts =
      map (λ e. e.0) counts
      ++ finding ((observed c).native_clients == 0) (codes "native_client_absent")
      ++ finding (any not (observed c).speakers_connected) (codes "speaker_not_connected")
      ++ finding (any (λ failed. failed) (observed c).components_failed)
          (codes "component_failure_observed")
      ++ finding (is_some previous && not (is_previous previous c))
          (codes "health_or_connection_changed")

  -- What comes of writing a line: the disk takes `bytes`, or fails with an OSError and leaves these
  -- files, or the task is cancelled, or another error is raised, while these files are there.
  pub data Disk : Type 0 where
    takes : ℕ → Disk
    fails interrupts : Files → Disk

  abbrev pub is_quiet : Bool → ℕ → Context → Recorder → Bool
  is_quiet force now c r =
      not force && is_empty r.counts && is_previous r.previous c && ltb (now - r.last_write) 3600

  abbrev pub entry_of : ℕ → Context → Recorder → Entry
  entry_of now c r = record {
    timestamp = now;
    is_start = not (is_some r.previous);
    patterns_seen = r.counts;
    context = c;
    dropped_observations = r.dropped;
    findings = findings_of r.previous c r.counts;
  }

  -- How a sample ends: nothing new, dropped, with an exception, or written.
  pub data Sampled : Type 0 where
    quiet dropped interrupted : Sampled
    written : Entry → Sampled

  abbrev pub stored : ℕ → Context → Recorder → Files × Bool → Recorder × Files × Sampled
  stored now c r (files, true) = (
    record r { counts = []; storage_error = false; previous = some c; last_write = now },
    files,
    written (entry_of now c r),
  )
  stored now c r (files, false) =
      (record r { counts = []; dropped = r.dropped + 1 }, files, dropped)

  abbrev pub saved : ℕ → Context → Disk → Recorder → Files → Recorder × Files × Sampled
  saved now c (takes bytes) r files = stored now c r (append (now / 86400) bytes files)
  saved now c (fails left) r files =
      (record r { counts = []; dropped = r.dropped + 1; storage_error = true }, left, dropped)
  saved now c (interrupts left) r files = (record r { counts = [] }, left, interrupted)

  unfoldable pub sample : Bool → ℕ → Context → Disk → Recorder → Files → Recorder × Files × Sampled
  sample force now c disk r files =
      if is_quiet force now c r
      then (record r { counts = [] }, files, quiet)
      else saved now c disk r files
