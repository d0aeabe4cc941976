-- ===== src/Config/Laws.antt =====
-- What the configuration store keeps of its speakers (backend/bl_haos/config.py).
use bl_haos_bridge.Prelude.{
  ℕ, ◌≡◌, ◌≢◌, refl, sym, ◌∙◌, subst, Bool, true, false, Option, none, some, All, is_some,
  if◌then◌else◌,
}
use bl_haos_bridge.Dict.{
  Text, lookup, lookup-All, insert-All, erase-All, lookup-insert_self, lookup-insert_ne,
  lookup-erase_self,
}
use bl_haos_bridge.Config.{
  SpeakerSettings, Updates, ConfigStore, new_speaker, is_valid, valid_alias, valid_codec, merged,
  save, speaker_key, get_speaker, put_speaker, created, updated, update_speaker, removed,
  remove_speaker,
}

-- A record under its own key, with valid settings.
pub record IsOwn (entry : Text × SpeakerSettings) : Type 0 where
  pub key : entry.1.address ≡ entry.0
  pub valid : is_valid entry.1 ≡ true

abbrev pub IsStore : ConfigStore → Type 0
IsStore st = All IsOwn st.speakers

created-IsStore :
    (works : Bool) (key : Text) (o : Option SpeakerSettings) (st : ConfigStore)
    → lookup key st.speakers ≡ o
    → IsStore st
    → let (s, m) = created works key o st in
      IsStore m
      × (s.address ≡ key)
      × ((other : Text) → key ≢ other → lookup other m.speakers ≡ lookup other st.speakers)
unfolding save
created-IsStore works key none st found v = (
  insert-All IsOwn key (new_speaker key) st.speakers v
      (record { key = refl; valid = unfold valid_alias valid_codec in refl }),
  refl,
  λ other ne. lookup-insert_ne key other (new_speaker key) st.speakers ne,
)
created-IsStore works key (some s) st found v =
    (v, (lookup-All IsOwn key st.speakers v found).key, λ other ne. refl)

-- What an update of a record leaves.
abbrev IsUpdated :
    Updates → SpeakerSettings → ConfigStore → Option SpeakerSettings × ConfigStore → Type 0
IsUpdated u s st (o, m) =
    IsStore m
    × ((r : SpeakerSettings) → o ≡ some r → lookup s.address m.speakers ≡ some r)
    × ((other : Text) → s.address ≢ other → lookup other m.speakers ≡ lookup other st.speakers)

updated-IsUpdated :
    (works : Bool) (u : Updates) (s : SpeakerSettings) (st : ConfigStore)
    → IsStore st
    → IsUpdated u s st (updated works u s st)
unfolding save
updated-IsUpdated works u s st v = go (is_valid (merged u s)) refl
  where
    go :
        (b : Bool)
        → is_valid (merged u s) ≡ b
        → IsUpdated u s st (
            if b
            then (some (merged u s), save works (put_speaker s.address (merged u s) st))
            else (none, st))
    go true ok = (
      insert-All IsOwn s.address (merged u s) st.speakers v (record { key = refl; valid = ok }),
      λ r e. lookup-insert_self s.address (merged u s) st.speakers ∙ e,
      λ other ne. lookup-insert_ne s.address other (merged u s) st.speakers ne,
    )
    go false bad = (v, λ r e. cc, λ other ne. refl)

-- An update of a speaker, whether it is accepted or not, whether the disk works or not, keeps
-- every record valid and under its own key; what it returns is what a lookup of the same
-- address then finds; and no other record changes.
pub update_speaker-IsStore :
    (disk : ℕ → Bool) (address : Text) (u : Updates) (st : ConfigStore)
    → IsStore st
    → let (o, m) = update_speaker disk address u st in
      IsStore m
      × ((r : SpeakerSettings) → o ≡ some r → get_speaker address m ≡ some r)
      × ((other : Text)
          → speaker_key address ≢ other
          → lookup other m.speakers ≡ lookup other st.speakers)
unfolding update_speaker get_speaker
update_speaker-IsStore disk address u st v =
    let key = speaker_key address in
    let o = lookup key st.speakers in
    let (a, b, c) = created-IsStore (disk 0) key o st refl v in
    let s = (created (disk 0) key o st).0 in
    let m = (created (disk 0) key o st).1 in
    let (d, e, f) = updated-IsUpdated (disk 1) u s m a in
    (
      d,
      λ r h. subst (λ k. lookup k (updated (disk 1) u s m).1.speakers ≡ some r) b (e r h),
      λ other ne. f other (subst (λ k. k ≢ other) (sym b) ne) ∙ c other ne,
    )

-- Removing a speaker keeps every record valid and under its own key, leaves none at the
-- address, and says whether there was one.
pub remove_speaker-IsStore :
    (works : Bool) (address : Text) (st : ConfigStore)
    → IsStore st
    → let (found, m) = remove_speaker works address st in
      IsStore m × (get_speaker address m ≡ none) × (found ≡ is_some (get_speaker address st))
unfolding remove_speaker get_speaker
remove_speaker-IsStore works address st v = go (lookup (speaker_key address) st.speakers) refl
  where
    go :
        (o : Option SpeakerSettings)
        → lookup (speaker_key address) st.speakers ≡ o
        → let (found, m) = removed works (speaker_key address) o st in
          IsStore m × (lookup (speaker_key address) m.speakers ≡ none) × (found ≡ is_some o)
    go none e = (v, e, refl)
    go (some s) e = (
      erase-All IsOwn (speaker_key address) st.speakers v,
      lookup-erase_self (speaker_key address) st.speakers,
      refl,
    )
