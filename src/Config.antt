-- ===== src/Config.antt =====
-- The speakers of the configuration store (backend/bl_haos/config.py: SpeakerSettings, ConfigStore).
-- `none` is the ValidationError.
pub mod Laws
use bl_haos_bridge.Prelude.{
  ◌>>=◌, ℕ, Bool, true, false, not, ◌&&◌, ◌||◌, List, [], ◌∷◌, Option, none, some, ltb, leb,
  if◌then◌else◌, any, length, is_some,
}
use bl_haos_bridge.Dict.{Text, Dict, lookup, insert, erase}
use bl_haos_bridge.Text.{codes, text_eq, strip, lower}

abbrev pub max_alias_length : ℕ
max_alias_length = 128

abbrev pub volume_max_percent : ℕ
volume_max_percent = 100

abbrev pub default_volume_percent : ℕ
default_volume_percent = 70

abbrev pub supported_codecs : List Text
supported_codecs =
    codes "auto"
    ∷ codes "sbc"
    ∷ codes "sbc_xq"
    ∷ codes "aac"
    ∷ codes "aptx"
    ∷ codes "aptx_hd"
    ∷ codes "ldac"
    ∷ []

pub record SpeakerSettings : Type 0 where
  pub address : Text
  pub custom_alias : Option Text
  pub auto_reconnect : Bool
  pub preferred_adapter : Option Text
  pub default_volume : ℕ
  pub codec_override : Option Text

-- `SpeakerSettings(address=addr)`
abbrev pub new_speaker : Text → SpeakerSettings
new_speaker addr = record {
  address = addr;
  custom_alias = none;
  auto_reconnect = true;
  preferred_adapter = none;
  default_volume = default_volume_percent;
  codec_override = none;
}

unfoldable pub valid_alias : Option Text → Bool
valid_alias none = true
valid_alias (some alias) = not (ltb max_alias_length (length alias) || any (λ c. ltb c 32) alias)

unfoldable pub valid_codec : Option Text → Bool
valid_codec none = true
valid_codec (some codec) = any (text_eq codec) supported_codecs

abbrev pub is_valid : SpeakerSettings → Bool
is_valid s =
    valid_alias s.custom_alias
    && valid_codec s.codec_override
    && leb s.default_volume volume_max_percent

-- The keyword arguments of `update_speaker`; a `None` is no update.
pub record Updates : Type 0 where
  pub alias : Option Text
  pub reconnect : Option Bool
  pub adapter : Option Text
  pub volume : Option ℕ
  pub codec : Option Text

abbrev pub or_else {ℓ} : {A : Type ℓ} → Option A → A → A
or_else none old = old
or_else (some new) old = new

abbrev pub or_kept : Option Text → Option Text → Option Text
or_kept none old = old
or_kept (some new) old = some new

-- `speaker.model_dump() | updates`
abbrev pub merged : Updates → SpeakerSettings → SpeakerSettings
merged u s = record s {
  custom_alias = or_kept u.alias s.custom_alias;
  auto_reconnect = or_else u.reconnect s.auto_reconnect;
  preferred_adapter = or_kept u.adapter s.preferred_adapter;
  default_volume = or_else u.volume s.default_volume;
  codec_override = or_kept u.codec s.codec_override;
}

-- The settings in memory and in the file. A disk that fails leaves the file as it is.
pub record ConfigStore : Type 0 where
  pub speakers : Dict SpeakerSettings
  pub file : Dict SpeakerSettings

pub save : Bool → ConfigStore → ConfigStore
save works st = record st { file = if works then st.speakers else st.file }

abbrev pub speaker_key : Text → Text
speaker_key address = lower (strip address)

pub get_speaker : Text → ConfigStore → Option SpeakerSettings
get_speaker address st = lookup (speaker_key address) st.speakers

abbrev pub put_speaker : Text → SpeakerSettings → ConfigStore → ConfigStore
put_speaker key s st = record st { speakers = insert key s st.speakers }

abbrev pub created :
    Bool → Text → Option SpeakerSettings → ConfigStore → SpeakerSettings × ConfigStore
created works key none st = (new_speaker key, save works (put_speaker key (new_speaker key) st))
created works key (some s) st = (s, st)

pub get_or_create_speaker : Bool → Text → ConfigStore → SpeakerSettings × ConfigStore
unfolding save
get_or_create_speaker works address st =
    created works (speaker_key address) (lookup (speaker_key address) st.speakers) st

-- An update that is refused leaves the record that was there, or was created.
abbrev pub updated :
    Bool → Updates → SpeakerSettings → ConfigStore → Option SpeakerSettings × ConfigStore
updated works u s st =
    if is_valid (merged u s)
    then (some (merged u s), save works (put_speaker s.address (merged u s) st))
    else (none, st)

-- `disk n` says whether the n-th save works.
unfoldable pub update_speaker :
    (ℕ → Bool) → Text → Updates → ConfigStore → Option SpeakerSettings × ConfigStore
unfolding get_or_create_speaker
update_speaker disk address u st =
    let (s, m) = get_or_create_speaker (disk 0) address st in updated (disk 1) u s m

abbrev pub removed : Bool → Text → Option SpeakerSettings → ConfigStore → Bool × ConfigStore
removed works key none st = (false, st)
removed works key (some s) st = (true, save works (record st { speakers = erase key st.speakers }))

pub remove_speaker : Bool → Text → ConfigStore → Bool × ConfigStore
unfolding save
remove_speaker works address st =
    removed works (speaker_key address) (lookup (speaker_key address) st.speakers) st
