-- ===== src/Tests/Config.antt =====
-- Runs of the configuration store (backend/bl_haos/config.py).
use bl_haos_bridge.Prelude.{ℕ, ◌≡◌, ◌≢◌, refl, Bool, true, [], ◌∷◌, none, some}
use bl_haos_bridge.Dict.{Text, lookup}
use bl_haos_bridge.Text.{codes}
use bl_haos_bridge.Config.{
  SpeakerSettings, Updates, ConfigStore, new_speaker, get_speaker, update_speaker, remove_speaker,
  speaker_key, is_valid,
}
use bl_haos_bridge.Config.Laws.{IsStore, update_speaker-IsStore}

abbrev speaker : Text
speaker = codes " A0:bb:cc:dd:ee:01"

abbrev fresh : ConfigStore
fresh = record { speakers = []; file = [] }

abbrev no_updates : Updates
no_updates = record { alias = none; reconnect = none; adapter = none; volume = none; codec = none }

abbrev louder : Updates
louder = record no_updates { volume = some 80; codec = some (codes "ldac") }

abbrev too_loud : Updates
too_loud = record no_updates { volume = some 101 }

abbrev works : ℕ → Bool
works n = true

abbrev louder_speaker : SpeakerSettings
louder_speaker = record (new_speaker (codes "a0:bb:cc:dd:ee:01")) {
  default_volume = 80;
  codec_override = some (codes "ldac");
}

abbrev louder_store : ConfigStore
louder_store = record {
  speakers = (codes "a0:bb:cc:dd:ee:01", louder_speaker) ∷ [];
  file = (codes "a0:bb:cc:dd:ee:01", louder_speaker) ∷ [];
}

turned_up : update_speaker works speaker louder fresh ≡ (some louder_speaker, louder_store)
unfolding update_speaker bl_haos_bridge.Config.valid_alias lookup bl_haos_bridge.Config.valid_codec
    bl_haos_bridge.Dict.Text-discrete bl_haos_bridge.Text.lower bl_haos_bridge.Dict.insert
    bl_haos_bridge.Text.strip bl_haos_bridge.Text.is_space
turned_up = refl

too_loud_refused : (update_speaker works speaker too_loud fresh).0 ≡ none
unfolding update_speaker bl_haos_bridge.Config.valid_alias lookup bl_haos_bridge.Config.valid_codec
too_loud_refused = refl

update_speaker-IsStore_example :
    let (o, m) = update_speaker works speaker louder fresh in
    IsStore m
    × ((r : SpeakerSettings) → o ≡ some r → get_speaker speaker m ≡ some r)
    × ((other : Text)
        → speaker_key speaker ≢ other
        → lookup other m.speakers ≡ lookup other fresh.speakers)
update_speaker-IsStore_example = update_speaker-IsStore works speaker louder fresh tt

louder_valid : is_valid louder_speaker ≡ true
unfolding bl_haos_bridge.Config.valid_alias bl_haos_bridge.Config.valid_codec
    bl_haos_bridge.Dict.Text-discrete
louder_valid = refl

louder_store-IsStore : IsStore louder_store
louder_store-IsStore = (record { key = refl; valid = louder_valid }, tt)
