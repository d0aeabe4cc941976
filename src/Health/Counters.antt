-- ===== src/Health/Counters.antt =====
-- Link churn: what the counters of a speaker say of the history of calls
-- (backend/bl_haos/health.py: observe_speaker and the calls beside it).
use bl_haos_bridge.Prelude.{
  ℕ, ◌+◌, ◌≡◌, ◌≢◌, refl, sym, ap, ◌∙◌, Bool, false, not, ◌&&◌, List, [], ◌∷◌, Option, none, some,
  arith, >>=-eq-some, some-injective, subst,
}
use bl_haos_bridge.Dict.{Text, lookup, lookup-insert_self, Text-discrete, lookup-insert_ne}
use bl_haos_bridge.Address.{normalize_address, safe_codec}
use bl_haos_bridge.Health.Model.{
  HealthState, SpeakerHealth, SpeakerState, FailureClass, is_connected, is_disconnected,
}
use bl_haos_bridge.Health.Registry.{observe_speaker-returns}
use bl_haos_bridge.Health.{
  HealthRegistry, Clock, Time, observe_speaker, observed_speaker, observe_component, set_lifecycle,
  record_suppressed_flap, record_speaker_codec, store_codec, count_if, previous_or, with_speaker,
  flapped, base_speaker,
}

-- What the registry says of an address, with what a missing record stands for.
abbrev pub connects_at : Text → HealthRegistry → ℕ
connects_at a r = previous_or (λ s. s.connects) 0 (lookup a r.speakers)

abbrev pub disconnects_at : Text → HealthRegistry → ℕ
disconnects_at a r = previous_or (λ s. s.disconnects) 0 (lookup a r.speakers)

abbrev pub connected_at : Text → HealthRegistry → Bool
connected_at a r = previous_or (λ s. is_connected s.state) false (lookup a r.speakers)

-- How often a sequence of states comes up, and how often it goes down, where `up` says whether the
-- state before it is `connected`.
unfoldable pub ups : Bool → List SpeakerState → ℕ
ups up [] = 0
ups up (s ∷ ss) = count_if (is_connected s && not up) + ups (is_connected s) ss

unfoldable pub downs : Bool → List SpeakerState → ℕ
downs up [] = 0
downs up (s ∷ ss) = count_if (is_disconnected s && up) + downs (is_connected s) ss

-- A history of calls that returned, with the states observed of the speaker `a`.
pub data History (a : Text) : List SpeakerState → HealthRegistry → HealthRegistry → Type 0 where
  start : {r : HealthRegistry} → History a [] r r
  seen :
      {ss : List SpeakerState} {r' r'' : HealthRegistry} (clock : Clock) (address : Text)
      (state : SpeakerState) (failure : Option FailureClass) (detail : Option Text) (attempt : ℕ)
      (codec : Option Text) (r : HealthRegistry)
      → normalize_address address ≡ some a
      → observe_speaker clock address state failure detail attempt codec r ≡ some r'
      → History a ss r' r''
      → History a (state ∷ ss) r r''
  elsewhere :
      {ss : List SpeakerState} {r' r'' : HealthRegistry} (clock : Clock) (address : Text)
      (state : SpeakerState) (failure : Option FailureClass) (detail : Option Text) (attempt : ℕ)
      (codec : Option Text) (r : HealthRegistry)
      → normalize_address address ≢ some a
      → observe_speaker clock address state failure detail attempt codec r ≡ some r'
      → History a ss r' r''
      → History a ss r r''
  flap_call :
      {ss : List SpeakerState} {r' r'' : HealthRegistry} (clock : Clock) (address : Text)
      (reason : Option Text) (r : HealthRegistry)
      → record_suppressed_flap clock address reason r ≡ some r'
      → History a ss r' r''
      → History a ss r r''
  codec_call :
      {ss : List SpeakerState} {r' r'' : HealthRegistry} (clock : Clock) (address : Text)
      (name : Option Text) (r : HealthRegistry)
      → record_speaker_codec clock address name r ≡ some r'
      → History a ss r' r''
      → History a ss r r''
  component_call :
      {ss : List SpeakerState} {r'' : HealthRegistry} (clock : Clock) (name : Text)
      (state : HealthState) (required : Bool) (failure : Option FailureClass)
      (detail source : Option Text) (r : HealthRegistry)
      → History a ss (observe_component clock name state required failure detail source r) r''
      → History a ss r r''
  lifecycle_call :
      {ss : List SpeakerState} {r'' : HealthRegistry} (clock : Clock) (state : HealthState)
      (failure : Option FailureClass) (detail : Option Text) (r : HealthRegistry)
      → History a ss (set_lifecycle clock state failure detail r) r''
      → History a ss r r''

-- The three readings agree.
abbrev Same : Text → HealthRegistry → HealthRegistry → Type 0
Same a r r' =
    (connects_at a r' ≡ connects_at a r)
    × (disconnects_at a r' ≡ disconnects_at a r)
    × (connected_at a r' ≡ connected_at a r)

with_speaker-Same_ne :
    (a b : Text) (s : SpeakerHealth) (r : HealthRegistry) → b ≢ a → Same a r (with_speaker b s r)
with_speaker-Same_ne a b s r ne = rw (lookup-insert_ne b a s r.speakers ne) (refl, refl, refl)

with_speaker-Same_eq :
    (a b : Text) (s : SpeakerHealth) (r : HealthRegistry)
    → b ≡ a
    → s.connects ≡ connects_at b r
    → s.disconnects ≡ disconnects_at b r
    → is_connected s.state ≡ connected_at b r
    → Same a r (with_speaker b s r)
with_speaker-Same_eq a b s r e h k l =
    subst (λ c. Same c r (with_speaker b s r)) e (rw (lookup-insert_self b s r.speakers) (h, k, l))

with_speaker-Same :
    (a b : Text) (s : SpeakerHealth) (r : HealthRegistry)
    → s.connects ≡ connects_at b r
    → s.disconnects ≡ disconnects_at b r
    → is_connected s.state ≡ connected_at b r
    → Same a r (with_speaker b s r)
with_speaker-Same a b s r h k l = elim (Text-discrete b a) [
  | yes e ↦ with_speaker-Same_eq a b s r e h k l
  | no ne ↦ with_speaker-Same_ne a b s r ne
]

-- A record that is written over the previous one keeps its counters and its state.
base_speaker-keeps :
    (now : Time) (a : Text) (o : Option SpeakerHealth)
    → let base = base_speaker now a o in
      (base.connects ≡ previous_or (λ s. s.connects) 0 o)
      × (base.disconnects ≡ previous_or (λ s. s.disconnects) 0 o)
      × (is_connected base.state ≡ previous_or (λ s. is_connected s.state) false o)
base_speaker-keeps now a none = (refl, refl, refl)
base_speaker-keeps now a (some s) = (refl, refl, refl)

flap-Same :
    (clock : Clock) (a address : Text) (reason : Option Text) (r r' : HealthRegistry)
    → record_suppressed_flap clock address reason r ≡ some r'
    → Same a r r'
unfolding record_suppressed_flap
flap-Same clock a address reason r r' h =
    let (b, n, e) = >>=-eq-some (normalize_address address) written h in
    let (x, y, z) = base_speaker-keeps (clock 0) b (lookup b r.speakers) in
    rw (← some-injective e)
      (with_speaker-Same a b (flapped (clock 0) b reason (lookup b r.speakers)) r x y z)
  where
    written : Text → Option HealthRegistry
    written b = some (with_speaker b (flapped (clock 0) b reason (lookup b r.speakers)) r)

store_codec-Same :
    (now : Time) (a b : Text) (c : Option Text) (r : HealthRegistry)
    → Same a r (store_codec now b c r)
store_codec-Same now a b none r = (refl, refl, refl)
store_codec-Same now a b (some name) r =
    let (x, y, z) = base_speaker-keeps now b (lookup b r.speakers) in
    with_speaker-Same a b (record (base_speaker now b (lookup b r.speakers)) { codec = some name })
      r x y z

codec-Same :
    (clock : Clock) (a address : Text) (name : Option Text) (r r' : HealthRegistry)
    → record_speaker_codec clock address name r ≡ some r'
    → Same a r r'
unfolding record_speaker_codec
codec-Same clock a address name r r' h =
    let (b, n, e) = >>=-eq-some (normalize_address address) written h in
    rw (← some-injective e) (store_codec-Same (clock 0) a b (safe_codec name) r)
  where
    written : Text → Option HealthRegistry
    written b = some (store_codec (clock 0) b (safe_codec name) r)

-- An observation of the speaker adds its own edge.
observed-edge :
    (clock : Clock) (a : Text) (state : SpeakerState) (failure : Option FailureClass)
    (detail : Option Text) (attempt : ℕ) (c : Option Text) (r : HealthRegistry)
    → let s = observed_speaker clock a state failure detail attempt c (lookup a r.speakers) in
      let r' = with_speaker a s r in
      (connects_at a r' ≡ connects_at a r + count_if (is_connected state && not (connected_at a r)))
      × (disconnects_at a r'
          ≡ disconnects_at a r + count_if (is_disconnected state && connected_at a r))
      × (connected_at a r' ≡ is_connected state)
unfolding observed_speaker
observed-edge clock a state failure detail attempt c r =
    rw
      (lookup-insert_self a
        (observed_speaker clock a state failure detail attempt c (lookup a r.speakers)) r.speakers)
      (refl, refl, refl)

abbrev Counts : Text → List SpeakerState → HealthRegistry → HealthRegistry → Type 0
Counts a ss r r' =
    (connects_at a r' ≡ connects_at a r + ups (connected_at a r) ss)
    × (disconnects_at a r' ≡ disconnects_at a r + downs (connected_at a r) ss)

Same-Counts :
    (a : Text) (ss : List SpeakerState) (r r' r'' : HealthRegistry)
    → Same a r r'
    → Counts a ss r' r''
    → Counts a ss r r''
Same-Counts a ss r r' r'' (x, y, z) (h, k) = (h ∙ (rw (x, z) refl), k ∙ (rw (y, z) refl))

edge-Counts :
    (a : Text) (state : SpeakerState) (ss : List SpeakerState) (r m r'' : HealthRegistry)
    → connects_at a m ≡ connects_at a r + count_if (is_connected state && not (connected_at a r))
    → disconnects_at a m ≡ disconnects_at a r + count_if (is_disconnected state && connected_at a r)
    → connected_at a m ≡ is_connected state
    → Counts a ss m r''
    → Counts a (state ∷ ss) r r''
unfolding ups downs
edge-Counts a state ss r m r'' x y z (h, k) =
    (omega (arith, h, ap (λ b. ups b ss) z), omega (arith, k, ap (λ b. downs b ss) z))

seen-Counts :
    (clock : Clock) (a address : Text) (state : SpeakerState) (failure : Option FailureClass)
    (detail : Option Text) (attempt : ℕ) (codec : Option Text) (ss : List SpeakerState)
    (r r' r'' : HealthRegistry)
    → normalize_address address ≡ some a
    → observe_speaker clock address state failure detail attempt codec r ≡ some r'
    → Counts a ss r' r''
    → Counts a (state ∷ ss) r r''
seen-Counts clock a address state failure detail attempt codec ss r r' r'' n h c =
    let (b, name, n', k, e) =
      observe_speaker-returns clock address state failure detail attempt codec r r' h in
    let written = λ (d : Text).
      with_speaker d
        (observed_speaker clock d state failure detail attempt name (lookup d r.speakers)) r in
    let (x, y, z) = observed-edge clock a state failure detail attempt name r in
    let e' : r' ≡ written a = e ∙ ap written (some-injective (sym n' ∙ n)) in
    edge-Counts a state ss r (written a) r'' x y z (rw e' at c)

elsewhere-Same :
    (clock : Clock) (a address : Text) (state : SpeakerState) (failure : Option FailureClass)
    (detail : Option Text) (attempt : ℕ) (codec : Option Text) (r r' : HealthRegistry)
    → normalize_address address ≢ some a
    → observe_speaker clock address state failure detail attempt codec r ≡ some r'
    → Same a r r'
elsewhere-Same clock a address state failure detail attempt codec r r' ne h =
    let (b, c, n, k, e) =
      observe_speaker-returns clock address state failure detail attempt codec r r' h in
    rw e (
      with_speaker-Same_ne a b
        (observed_speaker clock b state failure detail attempt c (lookup b r.speakers)) r
        (λ same. ne (n ∙ ap some same)))

lifecycle-Same :
    (clock : Clock) (a : Text) (state : HealthState) (failure : Option FailureClass)
    (detail : Option Text) (r : HealthRegistry)
    → Same a r (set_lifecycle clock state failure detail r)
unfolding set_lifecycle observe_component
lifecycle-Same clock a state none detail r = (refl, refl, refl)
lifecycle-Same clock a state (some f) detail r = (refl, refl, refl)

-- Over any history of registry calls that return, from any registry, the counters of a speaker
-- grow by exactly the number of times that its observed states come up, and go down from
-- `connected`. An observation that repeats a state, and every call that is no observation of
-- it, adds nothing.
pub History-Counts :
    {a : Text} {ss : List SpeakerState} {r r' : HealthRegistry}
    → History a ss r r'
    → (connects_at a r' ≡ connects_at a r + ups (connected_at a r) ss)
      × (disconnects_at a r' ≡ disconnects_at a r + downs (connected_at a r) ss)
unfolding ups downs
History-Counts start = (omega arith, omega arith)
History-Counts {a} {r'}
      (seen {ss} {r' = m} clock address state failure detail attempt codec r n h t) =
    seen-Counts clock a address state failure detail attempt codec ss r m r' n h (History-Counts t)
History-Counts {a} {r'}
      (elsewhere {ss} {r' = m} clock address state failure detail attempt codec r n h t) =
    Same-Counts a ss r m r'
      (elsewhere-Same clock a address state failure detail attempt codec r m n h) (History-Counts t)
History-Counts {a} {r'} (flap_call {ss} {r' = m} clock address reason r h t) =
    Same-Counts a ss r m r' (flap-Same clock a address reason r m h) (History-Counts t)
History-Counts {a} {r'} (codec_call {ss} {r' = m} clock address name r h t) =
    Same-Counts a ss r m r' (codec-Same clock a address name r m h) (History-Counts t)
History-Counts {a} {r'} (component_call {ss} clock name state required failure detail source r t) =
    Same-Counts a ss r (observe_component clock name state required failure detail source r) r'
      (unfold observe_component in (refl, refl, refl)) (History-Counts t)
History-Counts {a} {r'} (lifecycle_call {ss} clock state failure detail r t) =
    Same-Counts a ss r (set_lifecycle clock state failure detail r) r'
      (lifecycle-Same clock a state failure detail r) (History-Counts t)
