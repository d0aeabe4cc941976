-- ===== src/Tests/Bluetooth/Pairing.antt =====
-- Runs of the pairing window and of the agent.
use bl_haos_bridge.Prelude.{◌≡◌, ◌⊎◌, ◌↔◌, refl, true, none, some}
use bl_haos_bridge.Dict.{Text}
use bl_haos_bridge.Text.{codes}
use bl_haos_bridge.Address.{normalize_address}
use bl_haos_bridge.Bluetooth.Results.{ok}
use bl_haos_bridge.Bluetooth.Agent.{
  refuse, request_pin_code, request_passkey, request_confirmation, request_authorization,
  authorize_service,
}
use bl_haos_bridge.Bluetooth.Manager.Pairing.{
  address_from_device_path, open_pairing_window, close_pairing_window, opened, numeric, build_agent,
}
use bl_haos_bridge.Bluetooth.Manager.Pairing.Laws.{
  HasConsent, IsTrustedAt, agent-gives, agent-allows, answer_at, open_pairing_window-answers,
  close_pairing_window-refuses,
}
use bl_haos_bridge.Bluetooth.Manager.Trust.{pair_and_trust}
use bl_haos_bridge.Bluetooth.Manager.Trust.Laws.{EndsClosed, pair_and_trust-window}
use bl_haos_bridge.Bluetooth.Manager.Consent.{opening}
use bl_haos_bridge.Tests.Bluetooth.Data.{
  speaker_address, speaker_path, at_ease, asked, all_reply, pair_run, quiet,
}

asked_pin : (request_pin_code (build_agent 99) speaker_path asked).0 ≡ ok (codes "1234")
unfolding request_pin_code build_agent normalize_address bl_haos_bridge.Text.strip
    bl_haos_bridge.Dict.lookup bl_haos_bridge.Dict.Text-discrete bl_haos_bridge.Text.is_space
    bl_haos_bridge.Text.lower
asked_pin = refl

too_late : (request_pin_code (build_agent 100) speaker_path asked).0 ≡ refuse
unfolding request_pin_code build_agent normalize_address bl_haos_bridge.Text.strip
    bl_haos_bridge.Dict.lookup bl_haos_bridge.Dict.Text-discrete bl_haos_bridge.Text.is_space
    bl_haos_bridge.Text.lower
too_late = refl

not_asked :
    (request_passkey (build_agent 99) (codes "/org/bluez/hci0/dev_20_20_30_40_50_60") asked).0
    ≡ refuse
unfolding request_passkey build_agent normalize_address bl_haos_bridge.Text.strip
    bl_haos_bridge.Dict.lookup bl_haos_bridge.Dict.Text-discrete bl_haos_bridge.Text.is_space
    bl_haos_bridge.Text.lower
not_asked = refl

agent-gives_example :
    (((request_pin_code (build_agent 99) speaker_path asked).0 ≡ ok (codes "1234"))
      ↔ (HasConsent 99 speaker_path asked × (asked.pairing_pin ≡ some (codes "1234"))))
    × (((request_passkey (build_agent 99) speaker_path asked).0 ≡ ok 1234)
        ↔ (HasConsent 99 speaker_path asked × (numeric asked.pairing_pin ≡ some 1234)))
agent-gives_example = agent-gives 99 1234 speaker_path (codes "1234") asked

agent-allows_example :
    (((request_confirmation (build_agent 99) speaker_path 1234 asked).0 ≡ ok tt)
      ↔ (HasConsent 99 speaker_path asked ⊎ IsTrustedAt speaker_path asked))
    × (((request_authorization (build_agent 99) speaker_path asked).0 ≡ ok tt)
        ↔ (HasConsent 99 speaker_path asked ⊎ IsTrustedAt speaker_path asked))
    × (((authorize_service (build_agent 99) speaker_path (codes "110b") asked).0 ≡ ok tt)
        ↔ (HasConsent 99 speaker_path asked ⊎ IsTrustedAt speaker_path asked))
agent-allows_example = agent-allows 99 speaker_path (codes "110b") 1234 asked

opens :
    open_pairing_window 10 all_reply speaker_address none at_ease
    ≡ some (opened 10 all_reply none speaker_address at_ease)
unfolding open_pairing_window normalize_address bl_haos_bridge.Text.strip
    bl_haos_bridge.Text.is_space bl_haos_bridge.Text.replace_char bl_haos_bridge.Text.lower
opens = refl

open_pairing_window-answers_example :
    (a : Text) × (normalize_address speaker_address ≡ some a)
    × ((request_pin_code
          (build_agent 99)
          speaker_path
          (opened 10 all_reply none speaker_address at_ease)).0
        ≡ answer_at 10 99 a (codes "0000") (address_from_device_path speaker_path at_ease))
open_pairing_window-answers_example =
    open_pairing_window-answers 10 99 all_reply speaker_address speaker_path none at_ease opens

close_pairing_window-refuses_example :
    ((request_pin_code (build_agent 50) speaker_path (close_pairing_window all_reply asked)).0
      ≡ refuse)
    × ((request_passkey (build_agent 50) speaker_path (close_pairing_window all_reply asked)).0
        ≡ refuse)
    × (((request_confirmation
            (build_agent 50)
            speaker_path
            1234
            (close_pairing_window all_reply asked)).0
          ≡ ok tt)
        ↔ IsTrustedAt speaker_path (close_pairing_window all_reply asked))
close_pairing_window-refuses_example =
    close_pairing_window-refuses 50 1234 all_reply speaker_path asked

speaker_address_valid : normalize_address speaker_address ≡ some speaker_address
unfolding normalize_address bl_haos_bridge.Text.strip bl_haos_bridge.Text.is_space
    bl_haos_bridge.Text.replace_char bl_haos_bridge.Text.lower
speaker_address_valid = refl

paired_and_trusted : (pair_and_trust pair_run speaker_address none at_ease).0 ≡ ok true
unfolding pair_and_trust normalize_address bl_haos_bridge.Text.strip bl_haos_bridge.Text.is_space
    bl_haos_bridge.Text.replace_char bl_haos_bridge.Dict.Text-discrete bl_haos_bridge.Dict.lookup
    bl_haos_bridge.Dict.erase bl_haos_bridge.Dict.insert
paired_and_trusted = refl

pair_and_trust-window_example :
    EndsClosed
      (opening quiet all_reply 10 none speaker_address at_ease)
      (pair_and_trust pair_run speaker_address none at_ease)
pair_and_trust-window_example =
    pair_and_trust-window pair_run speaker_address none at_ease (λ i m h. h) speaker_address_valid
