-- ===== src/Reconnect/Engine/Profiles.antt =====
-- The profile table and what its operations keep (backend/bl_haos/bluetooth/reconnect.py: profiles).
use bl_haos_bridge.Prelude.{
  ℕ, ◌≡◌, refl, ap, ◌∙◌, subst, Bool, true, false, [], Option, none, some, arith, All,
}
use bl_haos_bridge.Dict.{Text, Dict, lookup, insert, erase, lookup-All, insert-All, erase-All}
use bl_haos_bridge.Address.{normalize_address}
use bl_haos_bridge.Reconnect.Model.{Config, Time, SpeakerReconnectProfile}
use bl_haos_bridge.Reconnect.Profile.{
  link_up, link_down, begin_attempt, attempt_succeeded, attempt_cancelled, attempt_failed,
  defer_busy_connection, tick_profile, record_flap,
}
use bl_haos_bridge.Reconnect.Profile.Laws.{
  IsSound, link_up-IsSound, link_down-IsSound, begin_attempt-IsSound, attempt_succeeded-IsSound,
  attempt_cancelled-IsSound, attempt_failed-IsSound, defer_busy_connection-IsSound,
  tick_profile-IsSound,
}
use bl_haos_bridge.Reconnect.Tracking.{Engine, renewed}
use bl_haos_bridge.Reconnect.Engine.{Outcome, device_noted, outcome_noted}

-- A profile as it stands under its key: a canonical address, which is its own, and sound.
pub record IsWatched (c : Config) (entry : Text × SpeakerReconnectProfile) : Type 0 where
  pub canonical : normalize_address entry.0 ≡ some entry.0
  pub own : entry.1.address ≡ entry.0
  pub sound : IsSound c entry.1

-- Every profile is watched; and while reconnection is switched off there is none.
pub record IsTable (c config : Config) (gate : Bool) (profiles : Dict SpeakerReconnectProfile)
    : Type 0 where
  pub same : config ≡ c
  pub entries : All (IsWatched c) profiles
  pub gated : gate ≡ false → profiles ≡ []

abbrev pub HasTable : Config → Engine → Type 0
HasTable c e = IsTable c e.config e.globally_enabled e.profiles

-- What an operation on a profile keeps.
pub record Kept (c : Config) (p q : SpeakerReconnectProfile) : Type 0 where
  pub address : q.address ≡ p.address
  pub sound : IsSound c p → IsSound c q

found-open :
    (gate : Bool) (a : Text) (p : SpeakerReconnectProfile) (d : Dict SpeakerReconnectProfile)
    → (gate ≡ false → d ≡ [])
    → lookup a d ≡ some p
    → gate ≡ true
found-open true a p d h k = refl
found-open false a p d h k =
    absurd
      (nothing (lookup a []) (unfold lookup in refl) (subst (λ x. lookup a x ≡ some p) (h refl) k))
  where
    nothing : (o : Option SpeakerReconnectProfile) → o ≡ none → o ≡ some p → ⊥
    nothing o x y = cc

module _ (c config : Config) (gate : Bool) (d : Dict SpeakerReconnectProfile)
    (v : IsTable c config gate d) where
  pub write-IsTable :
      (a : Text) (p q : SpeakerReconnectProfile)
      → lookup a d ≡ some p
      → Kept c p q
      → IsTable c config gate (insert a q d)
  write-IsTable a p q found k =
      let w = lookup-All (IsWatched c) a d v.entries found in
      let opened = found-open gate a p d v.gated found in
      record {
        same = v.same;
        entries =
            insert-All (IsWatched c) a q d v.entries (record {
              canonical = w.canonical;
              own = k.address ∙ w.own;
              sound = k.sound w.sound;
            });
        gated = λ closed. cc;
      }

  pub clear-IsTable : (a : Text) → IsTable c config gate (erase a d)
  unfolding erase
  clear-IsTable a = record {
    same = v.same;
    entries = erase-All (IsWatched c) a d v.entries;
    gated = λ closed. ap (erase a) (v.gated closed);
  }

-- Each operation on a profile.
pub device-Kept :
    (c : Config) (now : Time) (connected : Bool) (p : SpeakerReconnectProfile)
    → Kept c p (device_noted now connected p).0
device-Kept c now true p = record {
  address = unfold link_up in refl;
  sound = λ s. link_up-IsSound c p s now;
}
device-Kept c now false p = record {
  address = unfold link_down in ground arith;
  sound = λ s. link_down-IsSound c p s now;
}

pub outcome-Kept :
    (c : Config) (jitter : ℕ) (now : Time) (outcome : Outcome) (p : SpeakerReconnectProfile)
    → Kept c p (outcome_noted c jitter now outcome p).0
outcome-Kept c jitter now Outcome.succeeded p = record {
  address = unfold attempt_succeeded in refl;
  sound = λ s. attempt_succeeded-IsSound c p s now;
}
outcome-Kept c jitter now Outcome.cancelled p = record {
  address = unfold attempt_cancelled in refl;
  sound = λ s. attempt_cancelled-IsSound c p s jitter now;
}
outcome-Kept c jitter now Outcome.busy p = record {
  address = unfold defer_busy_connection in refl;
  sound = λ s. defer_busy_connection-IsSound c p s jitter now;
}
outcome-Kept c jitter now Outcome.failed p = record {
  address = unfold attempt_failed in ground arith;
  sound = λ s. attempt_failed-IsSound c p s jitter now;
}

pub begin-Kept : (c : Config) (p : SpeakerReconnectProfile) → Kept c p (begin_attempt p).0
begin-Kept c p = record {
  address = unfold begin_attempt in refl;
  sound = λ s. begin_attempt-IsSound c p s;
}

pub tick-Kept :
    (c : Config) (jitter : ℕ) (now : Time) (p : SpeakerReconnectProfile)
    → Kept c p (tick_profile c jitter now p).0
unfolding tick_profile record_flap
tick-Kept c jitter now p = record {
  address = ground arith;
  sound = λ s. tick_profile-IsSound c p s jitter now;
}

pub renewed-Kept :
    (c : Config) (enabled : Bool) (adapter : Option Text) (p : SpeakerReconnectProfile)
    → Kept c p (renewed enabled adapter p)
renewed-Kept c enabled adapter p = record {
  address = refl;
  sound = λ s. record {
    step = s.step;
    settled = s.settled;
    unbound = s.unbound;
    closed = s.closed;
    broken = s.broken;
    held = s.held;
    flaps = s.flaps;
  };
}
