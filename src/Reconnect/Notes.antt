-- ===== src/Reconnect/Notes.antt =====
-- What the engine tells the health registry (backend/bl_haos/bluetooth/reconnect.py: self.health).
use bl_haos_bridge.Prelude.{ℕ, ◌≡◌, refl, Option, none, some, arith}
use bl_haos_bridge.Dict.{Text, lookup}
use bl_haos_bridge.Address.{normalize_address, safe_codec}
use bl_haos_bridge.Address.Codec.{IsCodec}
use bl_haos_bridge.Health.{
  HealthRegistry, Clock, observe_speaker, record_suppressed_flap, known_codec, checked_codec,
  with_speaker, observed_speaker, flapped,
}
use bl_haos_bridge.Health.Model.{SpeakerHealth, SpeakerState, FailureClass}
use bl_haos_bridge.Health.Registry.{
  IsValid, IsFound, lookup-IsFound, observe_speaker-IsValid, record_suppressed_flap-IsValid,
}
use bl_haos_bridge.Reconnect.Model.{HealthNote, flap, observe}
use bl_haos_bridge.Reconnect.Tracking.{tell_one}

checked_codec-returns :
    (o : Option Text) → IsCodec o → (c : Option Text) × (checked_codec o ≡ some c)
checked_codec-returns none k = (none, refl)
checked_codec-returns (some name) k = (safe_codec (some name), ground arith)

-- The codec of the previous record.
known-IsCodec : (a : Text) (o : Option SpeakerHealth) → IsFound a o → IsCodec (known_codec none o)
known-IsCodec a none v = tt
known-IsCodec a (some s) v = v.1.codec

observe-returns :
    (clock : Clock) (addr : Text) (state : SpeakerState) (failure : Option FailureClass)
    (detail : Option Text) (attempt : ℕ) (r : HealthRegistry)
    → normalize_address addr ≡ some addr
    → IsValid r
    → (r' : HealthRegistry) × (observe_speaker clock addr state failure detail attempt none r
        ≡ some r')
observe-returns clock addr state failure detail attempt r n v =
    let (c, k) =
      checked_codec-returns (known_codec none (lookup addr r.speakers))
        (known-IsCodec addr (lookup addr r.speakers) (lookup-IsFound addr r.speakers v)) in
    (
      with_speaker addr
          (observed_speaker clock addr state failure detail attempt c (lookup addr r.speakers)) r,
      unfold observe_speaker in rw (n, k) refl,
    )

-- What the engine tells a valid registry about a canonical address never raises, and leaves the
-- registry valid.
tell_one-returns :
    (clock : Clock) (addr : Text) (note : HealthNote) (r : HealthRegistry)
    → normalize_address addr ≡ some addr
    → IsValid r
    → (r' : HealthRegistry) × (tell_one clock addr note r ≡ some r') × IsValid r'
tell_one-returns clock addr (flap reason) r n v =
    let r' = with_speaker addr (flapped (clock 0) addr (some reason) (lookup addr r.speakers)) r in
    let h : record_suppressed_flap clock addr (some reason) r ≡ some r' =
      unfold record_suppressed_flap in rw n refl in
    (r', h, record_suppressed_flap-IsValid clock addr (some reason) r r' v h)
tell_one-returns clock addr (observe state failure detail attempt) r n v =
    let (r', h) = observe-returns clock addr state failure detail attempt r n v in
    (r', h, observe_speaker-IsValid clock addr state failure detail attempt none r r' v h)
