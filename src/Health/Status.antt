-- ===== src/Health/Status.antt =====
-- The status of a snapshot (backend/bl_haos/health.py: HealthRegistry.snapshot).
use bl_haos_bridge.Prelude.{
  ◌≡◌, ◌↔◌, refl, Bool, true, false, ◌&&◌, List, [], ◌∷◌, any, arith, Option, some,
}
use bl_haos_bridge.Dict.{Text, Dict, lookup, insert, Text-discrete}
use bl_haos_bridge.Health.Model.{
  HealthState, ComponentHealth, is_unavailable, is_impaired, is_ending, is_starting, FailureClass,
}
use bl_haos_bridge.Health.{
  HealthRegistry, status, is_empty, required_states, observe_component, observed_component, Clock,
}

-- A required component whose state passes a test.
abbrev pub has_required : (HealthState → Bool) → HealthRegistry → Bool
has_required p r = any (λ e. e.1.required && p e.1.state) r.components

any-required :
    (p : HealthState → Bool) (d : Dict ComponentHealth)
    → any p (required_states d) ≡ any (λ e. e.1.required && p e.1.state) d
unfolding required_states
any-required p [] = refl
any-required p (e ∷ d) = ground (arith, any-required p d)

any_of_impaired : (d : List HealthState) → any is_impaired d ≡ true → is_empty d ≡ false
any_of_impaired [] h = cc
any_of_impaired (s ∷ d) h = refl

-- The status is `unavailable` exactly when a required component is; `degraded` exactly when no
-- required component is unavailable, one is degraded or unknown, and the bridge is not stopping
-- or stopped; and `healthy` exactly when no required component is any of these and the
-- lifecycle is neither starting nor stopping nor stopped.
pub status_meaning :
    (r : HealthRegistry)
    → ((status r ≡ HealthState.unavailable) ↔ (has_required is_unavailable r ≡ true))
      × ((status r ≡ HealthState.degraded) ↔ (
          (has_required is_unavailable r ≡ false)
          × (is_ending r.lifecycle ≡ false)
          × (has_required is_impaired r ≡ true)))
      × ((status r ≡ HealthState.healthy) ↔ (
          (has_required is_unavailable r ≡ false)
          × (has_required is_impaired r ≡ false)
          × (is_ending r.lifecycle ≡ false)
          × (is_starting r.lifecycle ≡ false)))
unfolding status
status_meaning r = ground (
  arith,
  any-required is_unavailable r.components,
  any-required is_impaired r.components,
  any_of_impaired (required_states r.components),
)

-- The entry of a name, if there is one, is not of a required component.
abbrev pub IsOptional : Text → Dict ComponentHealth → Type 0
IsOptional name d = (c : ComponentHealth) → lookup name d ≡ some c → c.required ≡ false

required_states-insert :
    (name : Text) (c : ComponentHealth) (d : Dict ComponentHealth)
    → c.required ≡ false
    → IsOptional name d
    → required_states (insert name c d) ≡ required_states d
unfolding required_states insert lookup
required_states-insert name c [] h o = ground arith
required_states-insert name c ((j, w) ∷ d) h o = elim (Text-discrete j name) [
  | yes same ↦ ground (arith, o w)
  | no other ↦ ground (arith, required_states-insert name c d h (λ v e. o v (ground arith)))
]

-- What is observed of a component that is not required, and was not required before, changes
-- neither the status nor the lifecycle nor the speakers, whatever its state and failure.
pub observe_component-optional :
    (clock : Clock) (name : Text) (state : HealthState) (failure : Option FailureClass)
    (detail source : Option Text) (r : HealthRegistry)
    → IsOptional name r.components
    → let r' = observe_component clock name state false failure detail source r in
      (status r' ≡ status r) × (r'.lifecycle ≡ r.lifecycle) × (r'.speakers ≡ r.speakers)
unfolding status observe_component
observe_component-optional clock name state failure detail source r o = (
  rw
      (required_states-insert name (observed_component clock name state false failure detail source)
        r.components (unfold observed_component in refl) o)
      refl,
  refl,
  refl,
)
