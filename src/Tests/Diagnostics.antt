-- ===== src/Tests/Diagnostics.antt =====
-- Runs of the diagnostics service (backend/bl_haos/diagnostics.py).
use bl_haos_bridge.Prelude.{
  ℕ, ◌≤◌, ◌≡◌, refl, true, List, [], ◌∷◌, ◌++◌, ◌-◌, drop, length, none, some,
}
use bl_haos_bridge.Text.{codes}
use bl_haos_bridge.Json.{Value, number, text, mapping, no_entries, entry, redact_value}
use bl_haos_bridge.Redaction.{redacted_placeholder}
use bl_haos_bridge.Health.Model.{
  HealthState, SpeakerState, FailureClass, FailureObservation, ComponentHealth, SpeakerHealth,
  HealthSnapshot,
}
use bl_haos_bridge.Diagnostics.Bounded.{bounded, omitted_placeholder}
use bl_haos_bridge.Diagnostics.Bounded.Laws.{IsSafe, bounded-IsSafe}
use bl_haos_bridge.Diagnostics.{
  DiagnosticsEvent, Report, failure_records, first_of, component_failures, speaker_failures,
}
use bl_haos_bridge.Diagnostics.Recorded.{AreEventsOf, recorded-AreEventsOf}
use bl_haos_bridge.Diagnostics.Events.{
  Call, recorded, IsNewestFirst, IsNewest, failure_records-IsNewestFirst,
}

-- What an adapter tells: a key that is withheld, a URL and a list that lies deep.
abbrev told : Value
told = mapping (
    entry (codes "url") (text (codes "at http://h/x")) (
      entry (codes "MyToken") (text (codes "abc"))
        (entry (codes "count") (number (codes "2")) no_entries)))

bounded-told :
    bounded 0 told
    ≡ mapping (
        entry
          (codes "count")
          (number (codes "2"))
          (entry (codes "url") (text (codes "at [url redacted]")) no_entries))
unfolding bounded bl_haos_bridge.Dict.Text-discrete bl_haos_bridge.Redaction.redact_urls
bounded-told = refl

redact_value-told :
    redact_value told
    ≡ mapping (
        entry (codes "url") (text (codes "at [url redacted]")) (
          entry
            (codes "MyToken")
            (text redacted_placeholder)
            (entry (codes "count") (number (codes "2")) no_entries)))
unfolding redact_value bl_haos_bridge.Redaction.redact_urls
redact_value-told = refl

too_deep_left_out : bounded 5 told ≡ text omitted_placeholder
unfolding bounded
too_deep_left_out = refl

bounded-IsSafe_example : IsSafe 5 (bounded 0 told)
bounded-IsSafe_example = bounded-IsSafe told

abbrev report : Report
report = record {
  name = codes "playback_failed";
  component = codes "player";
  speaker = some (codes "a0:bb:cc:dd:ee:01");
  adapter = some [];
  detail = some told;
  failure_class = none;
  transition_reason = none;
  recovery = none;
  correlation_id = none;
}

abbrev small : DiagnosticsEvent → ℕ
small e = 100

abbrev calls : List Call
calls = (1000, codes "f00d", report) ∷ (2000, codes "beef", report) ∷ []

recorded-AreEventsOf_example :
    AreEventsOf small (drop (length calls - 50) calls) (recorded small calls [])
recorded-AreEventsOf_example = recorded-AreEventsOf small calls

abbrev failed_at : ℕ → FailureObservation
failed_at now = record {
  classification = FailureClass.pipewire_unavailable;
  detail = none;
  observed_at = now;
  attempt = none;
}

abbrev pipewire : ComponentHealth
pipewire = record {
  name = codes "pipewire";
  state = HealthState.unavailable;
  required = true;
  failure = some (failed_at 10);
  source = none;
  observed_at = 10;
}

abbrev speaker : SpeakerHealth
speaker = record {
  address = codes "a0:bb:cc:dd:ee:01";
  state = SpeakerState.unavailable;
  failure = some (failed_at 20);
  transition = none;
  observed_at = 20;
  attempt = 0;
  connects = 0;
  disconnects = 0;
  suppressed_flaps = 0;
  codec = none;
  link_reason = none;
}

abbrev two_failures : HealthSnapshot
two_failures = record {
  version = 2;
  status = HealthState.unavailable;
  lifecycle = HealthState.healthy;
  components = (codes "pipewire", pipewire) ∷ [];
  speakers = (codes "a0:bb:cc:dd:ee:01", speaker) ∷ [];
  updated_at = 20;
}

speaker_first :
    first_of (failure_records two_failures)
    ≡ some (record {
      component = codes "speaker";
      speaker = some (codes "a0:bb:cc:dd:ee:01");
      classification = FailureClass.pipewire_unavailable;
      detail = none;
      observed_at = 20;
    })
unfolding failure_records
speaker_first = refl

failure_records-IsNewestFirst_example :
    IsNewestFirst (failure_records two_failures)
    × (length (failure_records two_failures) ≤ 100)
    × IsNewest
        (first_of (failure_records two_failures))
        (component_failures two_failures.components ++ speaker_failures two_failures.speakers)
failure_records-IsNewestFirst_example = failure_records-IsNewestFirst two_failures
