-- ===== src/Incidents/Laws.antt =====
-- What the incident recorder keeps (backend/bl_haos/incidents.py).
use bl_haos_bridge.Prelude.{ℕ, ◌+◌, ◌-◌, ◌≤◌, Bool, [], ◌∷◌, leb, arith, All, select}
use bl_haos_bridge.Incidents.{Files, size_of, grown, append, daily_bytes, retention_days}

-- Files of at most the daily size.
abbrev pub AreBounded : Files → Type 0
AreBounded = All (λ file. file.1 ≤ daily_bytes)

-- Files of the last thirty days.
abbrev pub AreRecent : ℕ → Files → Type 0
AreRecent today = All (λ file. today - (retention_days - 1) ≤ file.0)

select-bounded : (p : ℕ × ℕ → Bool) (files : Files) → AreBounded files → AreBounded (select p files)
select-bounded p [] h = tt
select-bounded p (file ∷ files) h = ground (arith, select-bounded p files h.1)

select-recent :
    (today : ℕ) (files : Files)
    → AreRecent today (select (λ file. leb (today - (retention_days - 1)) file.0) files)
select-recent today [] = tt
select-recent today (file ∷ files) = ground (arith, select-recent today files)

grown-bounded :
    (day bytes : ℕ) (files : Files)
    → AreBounded files
    → size_of day files + bytes ≤ daily_bytes
    → AreBounded (grown day bytes files)
unfolding grown
grown-bounded day bytes [] h room = (omega arith, tt)
grown-bounded day bytes ((d, size) ∷ files) h room =
    ground (arith, grown-bounded day bytes files h.1)

grown-recent :
    (day bytes : ℕ) (files : Files) → AreRecent day files → AreRecent day (grown day bytes files)
unfolding grown
grown-recent day bytes [] h = (omega arith, tt)
grown-recent day bytes ((d, size) ∷ files) h = ground (arith, grown-recent day bytes files h.1)

-- An append to daily files of at most 2 MiB leaves daily files of at most 2 MiB, and none that
-- is older than thirty days.
pub append-AreBounded :
    (today bytes : ℕ) (files : Files)
    → AreBounded files
    → let (files', written) = append today bytes files in AreBounded files' × AreRecent today files'
unfolding append
append-AreBounded today bytes files h =
    let kept = select (λ file. leb (today - (retention_days - 1)) file.0) files in
    let b = select-bounded (λ file. leb (today - (retention_days - 1)) file.0) files h in
    let r = select-recent today files in
    ground (arith, b, r, grown-bounded today bytes kept b, grown-recent today bytes kept r)
