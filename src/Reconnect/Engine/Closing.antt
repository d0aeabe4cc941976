-- ===== src/Reconnect/Engine/Closing.antt =====
-- Switching automatic reconnection off (backend/bl_haos/bluetooth/reconnect.py: set_global_enabled).
use bl_haos_bridge.Prelude.{
  ◌≡◌, ◌⊎◌, inl, inr, refl, sym, ap, ◌∙◌, subst, false, List, [], ◌∷◌, some, arith, All,
  >>=-eq-some, some-injective,
}
use bl_haos_bridge.Dict.{Text, Dict, erase}
use bl_haos_bridge.Address.{normalize_address}
use bl_haos_bridge.Reconnect.Model.{Config, SpeakerReconnectProfile}
use bl_haos_bridge.Reconnect.Tracking.{
  Engine, unregister_at, unregister_speaker, unregister_all, keys,
}
use bl_haos_bridge.Reconnect.Engine.Profiles.{IsWatched, HasTable}

-- Switching reconnection off unregisters every key in turn.
abbrev In : Text → List Text → Type 0
In a [] = ⊥
In a (k ∷ ks) = (a ≡ k) ⊎ In a ks

erase_all : List Text → Dict SpeakerReconnectProfile → Dict SpeakerReconnectProfile
erase_all [] d = d
erase_all (k ∷ ks) d = erase_all ks (erase k d)

erase-covers :
    (k : Text) (ks : List Text) (d : Dict SpeakerReconnectProfile)
    → All (λ entry. In entry.0 (k ∷ ks)) d
    → All (λ entry. In entry.0 ks) (erase k d)
unfolding erase
erase-covers k ks [] h = tt
erase-covers k ks ((a, p) ∷ d) h = ground (arith, erase-covers k ks d h.1)

erase_all-covers :
    (ks : List Text) (d : Dict SpeakerReconnectProfile)
    → All (λ entry. In entry.0 ks) d
    → erase_all ks d ≡ []
unfolding erase_all
erase_all-covers [] [] h = refl
erase_all-covers [] (entry ∷ d) h = absurd h.0
erase_all-covers (k ∷ ks) d h = erase_all-covers ks (erase k d) (erase-covers k ks d h)

keys-more :
    (k : Text) (ks : List Text) (d : Dict SpeakerReconnectProfile)
    → All (λ entry. In entry.0 ks) d
    → All (λ entry. In entry.0 (k ∷ ks)) d
keys-more k ks [] h = tt
keys-more k ks (entry ∷ d) h = (inr h.0, keys-more k ks d h.1)

keys-cover : (d : Dict SpeakerReconnectProfile) → All (λ entry. In entry.0 (keys d)) d
keys-cover [] = tt
keys-cover ((a, p) ∷ d) = (inl refl, keys-more a (keys d) d (keys-cover d))

keys-canonical :
    (c : Config) (d : Dict SpeakerReconnectProfile)
    → All (IsWatched c) d
    → All (λ k. normalize_address k ≡ some k) (keys d)
keys-canonical c [] h = tt
keys-canonical c ((a, p) ∷ d) h = (h.0.canonical, keys-canonical c d h.1)

unregistered :
    (k : Text) (e m : Engine)
    → normalize_address k ≡ some k
    → unregister_speaker k e ≡ some m
    → m ≡ unregister_at k e
unfolding unregister_speaker
unregistered k e m n u = sym (some-injective (rw n at u))

-- What is left after the keys are unregistered.
unregister_all-erases :
    (ks : List Text) (e e' : Engine)
    → All (λ k. normalize_address k ≡ some k) ks
    → unregister_all ks e ≡ some e'
    → (e'.profiles ≡ erase_all ks e.profiles) × (e'.config ≡ e.config)
unfolding unregister_all erase_all
unregister_all-erases [] e e' ns h =
    (ap (λ x. x.profiles) (sym (some-injective h)), ap (λ x. x.config) (sym (some-injective h)))
unregister_all-erases (k ∷ ks) e e' ns h =
    let (m, u, r) = >>=-eq-some (unregister_speaker k e) (unregister_all ks) h in
    let (x, y) = unregister_all-erases ks m e' ns.1 r in
    let s = unregistered k e m ns.0 u in
    (subst (λ z. e'.profiles ≡ erase_all ks z.profiles) s x, subst (λ z. e'.config ≡ z.config) s y)

pub closes-HasTable :
    (c : Config) (e e' : Engine)
    → unregister_all (keys e.profiles) (record e { globally_enabled = false }) ≡ some e'
    → HasTable c e
    → HasTable c e'
closes-HasTable c e e' h v =
    let (x, y) =
      unregister_all-erases (keys e.profiles) (record e { globally_enabled = false }) e'
        (keys-canonical c e.profiles v.entries) h in
    let none_left = x ∙ erase_all-covers (keys e.profiles) e.profiles (keys-cover e.profiles) in
    record {
      same = y ∙ v.same;
      entries = subst (All (IsWatched c)) (sym none_left) tt;
      gated = λ closed. none_left;
    }
