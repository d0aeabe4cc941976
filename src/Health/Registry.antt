-- ===== src/Health/Registry.antt =====
-- The invariant of the registry's speaker records (backend/bl_haos/health.py).
use bl_haos_bridge.Prelude.{
  ℕ, ◌+◌, ◌≤◌, ◌≡◌, refl, Option, none, some, All, arith, Option-cases, inl, inr, subst, sym, ◌>>=◌,
  >>=-eq-some, some-injective,
}
use bl_haos_bridge.Dict.{Text, Dict, lookup, insert, insert-All, lookup-All}
use bl_haos_bridge.Address.{normalize_address, safe_codec}
use bl_haos_bridge.Address.Laws.{IsAddress, normalize_address-IsAddress}
use bl_haos_bridge.Address.Codec.{IsCodec, safe_codec-IsCodec}
use bl_haos_bridge.Health.Model.{SpeakerHealth, SpeakerState, FailureClass, is_connected}
use bl_haos_bridge.Health.{
  HealthRegistry, Clock, Time, observe_speaker, observed_speaker, record_suppressed_flap,
  record_speaker_codec, store_codec, base_speaker, count_if, checked_codec, known_codec,
  with_speaker, flapped,
}

-- A record: it has gone down no more often than it came up, and a connected one has come up once
-- more; the codec is usable.
pub record IsCounted (s : SpeakerHealth) : Type 0 where
  pub churn : s.disconnects + count_if (is_connected s.state) ≤ s.connects
  pub codec : IsCodec s.codec

-- An entry: the key is a canonical address, and the record's own.
pub record IsEntry (e : Text × SpeakerHealth) : Type 0 where
  pub canonical : IsAddress e.0
  pub own : e.1.address ≡ e.0
  pub counted : IsCounted e.1

abbrev pub IsValid : HealthRegistry → Type 0
IsValid r = All IsEntry r.speakers

-- What a lookup under an address finds.
abbrev pub IsFound : Text → Option SpeakerHealth → Type 0
IsFound a none = Unit
IsFound a (some s) = (s.address ≡ a) × IsCounted s

pub lookup-IsFound : (k : Text) (d : Dict SpeakerHealth) → All IsEntry d → IsFound k (lookup k d)
lookup-IsFound k d h = elim (Option-cases (lookup k d)) [
  | inl e ↦ rw e tt
  | inr (s, e) ↦ let v = lookup-All IsEntry k d h e in rw e (v.own, v.counted)
]

checked_codec-IsCodec : (o : Option Text) (c : Option Text) → checked_codec o ≡ some c → IsCodec c
checked_codec-IsCodec none c h = subst IsCodec (some-injective h) tt
checked_codec-IsCodec (some n) c h =
    subst IsCodec (some-injective (ground arith)) (safe_codec-IsCodec (some n))

observed_speaker-IsCounted :
    (clock : Clock) (address : Text) (state : SpeakerState) (failure : Option FailureClass)
    (detail : Option Text) (attempt : ℕ) (codec : Option Text) (previous : Option SpeakerHealth)
    → IsFound address previous
    → IsCodec codec
    → IsCounted (observed_speaker clock address state failure detail attempt codec previous)
unfolding observed_speaker
observed_speaker-IsCounted clock address state failure detail attempt codec none p c = record {
  churn = ground arith;
  codec = c;
}
observed_speaker-IsCounted clock address state failure detail attempt codec (some s) p c = record {
  churn = ground arith;
  codec = c;
}

-- Writing a counted record under its address keeps the registry valid.
insert-IsValid :
    (address a : Text) (s : SpeakerHealth) (d : Dict SpeakerHealth)
    → normalize_address address ≡ some a
    → s.address ≡ a
    → IsCounted s
    → All IsEntry d
    → All IsEntry (insert a s d)
insert-IsValid address a s d n own counted v =
    insert-All IsEntry a s d v
      (record { canonical = normalize_address-IsAddress address a n; own = own; counted = counted })

base_speaker-IsCounted :
    (now : Time) (a : Text) (o : Option SpeakerHealth)
    → IsFound a o
    → IsCounted (base_speaker now a o)
base_speaker-IsCounted now a none p = record { churn = omega arith; codec = tt }
base_speaker-IsCounted now a (some s) p = record { churn = p.1.churn; codec = p.1.codec }

base_speaker-own :
    (now : Time) (a : Text) (o : Option SpeakerHealth)
    → IsFound a o
    → (base_speaker now a o).address ≡ a
base_speaker-own now a none p = refl
base_speaker-own now a (some s) p = p.0

module _ (clock : Clock) (address : Text) (state : SpeakerState) (failure : Option FailureClass)
    (detail : Option Text) (attempt : ℕ) (codec : Option Text) (r r' : HealthRegistry) where
  -- What a call that returned has written: a record at the canonical address.
  pub observe_speaker-returns :
      observe_speaker clock address state failure detail attempt codec r ≡ some r'
      → (a : Text) × (c : Option Text) × (normalize_address address ≡ some a)
        × IsCodec c
        × (r'
            ≡ with_speaker a
                (observed_speaker clock a state failure detail attempt c (lookup a r.speakers))
                r)
  observe_speaker-returns h =
      let (a, n, h₁) =
        >>=-eq-some (normalize_address address) at_address {b = r'} (unfold observe_speaker in h) in
      let (c, k, h₂) = >>=-eq-some (checked_codec (name a)) (written a) h₁ in
      (a, c, n, checked_codec-IsCodec (name a) c k, sym (some-injective h₂))
    where
      name : Text → Option Text
      name a = known_codec codec (lookup a r.speakers)

      written : Text → Option Text → Option HealthRegistry
      written a c = some (
          with_speaker a
            (observed_speaker clock a state failure detail attempt c (lookup a r.speakers)) r)

      at_address : Text → Option HealthRegistry
      at_address a = checked_codec (name a) >>= written a

  -- Every call that observes a speaker and returns keeps the records valid: each is under its
  -- own canonical address, has gone down no more often than it came up, and has a usable codec.
  pub observe_speaker-IsValid :
      IsValid r
      → observe_speaker clock address state failure detail attempt codec r ≡ some r'
      → IsValid r'
  observe_speaker-IsValid v h =
      let (a, c, n, k, e) = observe_speaker-returns h in
      rw e (
        insert-IsValid address a
          (observed_speaker clock a state failure detail attempt c (lookup a r.speakers)) r.speakers
          n (unfold observed_speaker in refl)
          (observed_speaker-IsCounted clock a state failure detail attempt c (lookup a r.speakers)
            (lookup-IsFound a r.speakers v) k)
          v)

-- A call that counts a suppressed flap and returns keeps the records valid.
pub record_suppressed_flap-IsValid :
    (clock : Clock) (address : Text) (reason : Option Text) (r r' : HealthRegistry)
    → IsValid r
    → record_suppressed_flap clock address reason r ≡ some r'
    → IsValid r'
unfolding record_suppressed_flap
record_suppressed_flap-IsValid clock address reason r r' v h =
    let (a, n, e) = >>=-eq-some (normalize_address address) written h in
    let found = lookup-IsFound a r.speakers v in
    let base = base_speaker-IsCounted (clock 0) a (lookup a r.speakers) found in
    rw (← some-injective e) (
      insert-IsValid address a (flapped (clock 0) a reason (lookup a r.speakers)) r.speakers n
        (base_speaker-own (clock 0) a (lookup a r.speakers) found)
        (record { churn = base.churn; codec = base.codec }) v)
  where
    written : Text → Option HealthRegistry
    written a = some (with_speaker a (flapped (clock 0) a reason (lookup a r.speakers)) r)

store_codec-IsValid :
    (now : Time) (address a : Text) (c : Option Text) (r : HealthRegistry)
    → normalize_address address ≡ some a
    → IsCodec c
    → IsValid r
    → IsValid (store_codec now a c r)
store_codec-IsValid now address a none r n k v = v
store_codec-IsValid now address a (some name) r n k v =
    let found = lookup-IsFound a r.speakers v in
    insert-IsValid address a
      (record (base_speaker now a (lookup a r.speakers)) { codec = some name }) r.speakers n
      (base_speaker-own now a (lookup a r.speakers) found)
      (record {
        churn = (base_speaker-IsCounted now a (lookup a r.speakers) found).churn;
        codec = k;
      })
      v

-- A call that records a codec and returns keeps the records valid, whatever the codec is.
pub record_speaker_codec-IsValid :
    (clock : Clock) (address : Text) (codec : Option Text) (r r' : HealthRegistry)
    → IsValid r
    → record_speaker_codec clock address codec r ≡ some r'
    → IsValid r'
unfolding record_speaker_codec
record_speaker_codec-IsValid clock address codec r r' v h =
    let (a, n, e) = >>=-eq-some (normalize_address address) written h in
    rw (← some-injective e)
      (store_codec-IsValid (clock 0) address a (safe_codec codec) r n (safe_codec-IsCodec codec) v)
  where
    written : Text → Option HealthRegistry
    written a = some (store_codec (clock 0) a (safe_codec codec) r)
