-- ===== src/Reconnect/Engine/Tracked.antt =====
-- Who owns a speaker, under the calls from outside (backend/bl_haos/bluetooth/reconnect.py:
-- register_speaker, unregister_speaker, set_global_enabled).
use bl_haos_bridge.Prelude.{
  ℕ, ◌≡◌, ◌≢◌, refl, sym, ap, ◌∙◌, Bool, true, false, List, [], ◌∷◌, Option, none, some, arith,
  some-injective, >>=-eq-some, subst,
}
use bl_haos_bridge.Dict.{Text, lookup, insert, erase, lookup-erase_ne}
use bl_haos_bridge.Address.{normalize_address}
use bl_haos_bridge.Reconnect.Model.{SpeakerReconnectProfile}
use bl_haos_bridge.Reconnect.Tracking.{
  Engine, Task, cancel_task, cancel_found, enrol, renewed, unregister_at, unregister_speaker,
  unregister_all,
}
use bl_haos_bridge.Reconnect.Engine.Table.{
  is_live, IsOwned, track-IsOwned, Fewer, Fewer-IsOwned, cancel_task-Fewer, cancel_task-not_live,
}

-- Calls from outside.
pub enrol-IsOwned :
    (addr : Text) (enabled : Bool) (adapter : Option Text) (o : Option SpeakerReconnectProfile)
    (e : Engine)
    → IsOwned e
    → IsOwned (enrol addr enabled adapter o e)
enrol-IsOwned addr enabled adapter none e v = record {
  fresh = λ n t h. omega (arith, v.fresh n t h);
  owner = v.owner;
  off = v.off;
  quiet = v.quiet;
}
enrol-IsOwned addr enabled adapter (some p) e v =
    track-IsOwned (insert addr (renewed enabled adapter p) e.profiles) e.health e.globally_enabled e
      v

cancel_found-Fewer : (o : Option ℕ) (tasks : ℕ → Option Task) → Fewer tasks (cancel_found o tasks)
cancel_found-Fewer none tasks = record { had = λ m t h. (t, h); live = λ m t h l. (t, h, l, refl) }
cancel_found-Fewer (some n) tasks = cancel_task-Fewer n tasks

cancel_found-not_live :
    (o : Option ℕ) (n : ℕ) (tasks : ℕ → Option Task) (t : Task)
    → o ≡ some n
    → cancel_found o tasks n ≡ some t
    → is_live t ≡ false
cancel_found-not_live none n tasks t h k = cc
cancel_found-not_live (some m) n tasks t h k =
    let same : m ≡ n = some-injective h in
    cancel_task-not_live n tasks t (subst (λ i. cancel_task i tasks n ≡ some t) same k)

-- The entry of an address may go once no live task has the address.
pub erase-IsOwned :
    (addr : Text) (e : Engine)
    → ((n : ℕ) (t : Task) → e.tasks n ≡ some t → is_live t ≡ true → t.address ≢ addr)
    → IsOwned e
    → IsOwned (record e { inflight = erase addr e.inflight })
erase-IsOwned addr e free v = record {
  fresh = v.fresh;
  owner = λ n t h l.
      lookup-erase_ne addr t.address e.inflight (λ s. free n t h l (sym s)) ∙ v.owner n t h l;
  off = v.off;
  quiet = v.quiet;
}

pub unregister_at-IsOwned : (addr : Text) (e : Engine) → IsOwned e → IsOwned (unregister_at addr e)
unregister_at-IsOwned addr e v =
    track-IsOwned (erase addr e.profiles) e.health e.globally_enabled
      (record e₁ { inflight = erase addr e.inflight }) (erase-IsOwned addr e₁ free v₁)
  where
    o : Option ℕ
    o = lookup addr e.inflight

    e₁ : Engine
    e₁ = record e { tasks = cancel_found o e.tasks }

    v₁ : IsOwned e₁
    v₁ = Fewer-IsOwned e (cancel_found o e.tasks) (cancel_found-Fewer o e.tasks) v

    free : (n : ℕ) (t : Task) → e₁.tasks n ≡ some t → is_live t ≡ true → t.address ≢ addr
    free n t h l a =
        let held : o ≡ some n = ap (λ x. lookup x e.inflight) (sym a) ∙ v₁.owner n t h l in
        cc (cancel_found-not_live o n e.tasks t held h)

pub unregister_speaker-IsOwned :
    (address : Text) (e e' : Engine)
    → IsOwned e
    → unregister_speaker address e ≡ some e'
    → IsOwned e'
unfolding unregister_speaker
unregister_speaker-IsOwned address e e' v h =
    let (addr, _, k) = >>=-eq-some (normalize_address address) (λ a. some (unregister_at a e)) h in
    subst IsOwned (some-injective k) (unregister_at-IsOwned addr e v)

pub unregister_all-IsOwned :
    (addrs : List Text) (e e' : Engine) → IsOwned e → unregister_all addrs e ≡ some e' → IsOwned e'
unfolding unregister_all
unregister_all-IsOwned [] e e' v h = subst IsOwned (some-injective h) v
unregister_all-IsOwned (addr ∷ addrs) e e' v h =
    let (m, k, h') = >>=-eq-some (unregister_speaker addr e) (unregister_all addrs) h in
    unregister_all-IsOwned addrs m e' (unregister_speaker-IsOwned addr e m v k) h'
