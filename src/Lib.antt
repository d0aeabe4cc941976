-- ===== src/Lib.antt =====
-- BL-HAOS bridge: the add-on's backend (backend/bl_haos), which connects Bluetooth speakers to Home
-- Assistant. Modelled here are the health contract, the Bluetooth manager with its devices, adapters and
-- pairing agent, the automatic reconnection of speakers, the playback queues, the check of media
-- URLs, the diagnostics, the incident recorder and the stored settings of speakers.
--
-- The parts and their files:
-- - Prelude, Dict, Text: numbers, lists and options; a Python dict as an association list in
--   insertion order; a Python str as the list of its code points, with the str methods that the
--   bridge uses.
-- - Address: the validators of backend/bl_haos/health.py (normalize_address, validate_adapter_name,
--   validate_identifier, safe_codec, validate_pin). `none` is the ValueError. The regular
--   expressions are recognisers by clauses.
-- - Redaction: safe_detail of the same file on a string, with _SECRET_PATTERN and URL_PATTERN of
--   backend/bl_haos/constants.py. `re.sub` is a scan that goes on behind each match. Json has the
--   values of JSON shape, and redact_value.
-- - Media: media_host_is_blocked, _media_address, validate_media_url and validate_media_type of the
--   same file. Parts, Ip and Literal are what they use of Python's str, ipaddress and int, Host the
--   check of a host, Url the check of a URL with urlsplit, which skips spaces in front as it does
--   since Python 3.11.4; the normalisation of a location (NFKC) is a parameter. Host.Dotted, Host.Spellings and Host.Short are about the spellings of an IPv4 address.
-- - Health: HealthRegistry. Model has the enums and records, Health the operations by their source
--   names, Status the meaning of the snapshot, Registry an invariant of the speaker records,
--   Counters the link churn over histories of calls.
-- - Reconnect: AutoReconnectEngine of backend/bl_haos/bluetooth/reconnect.py. Model has the records
--   and constants, Delay is _calculate_backoff_delay, Profile what each event does to one profile
--   (the branches of _on_device_event, _tick and _attempt_reconnect, and _arm_backoff, _record_flap,
--   _defer_busy_connection), Tracking the engine's state with register_speaker,
--   unregister_speaker and set_global_enabled, Engine the events, the tick, the tasks, start and
--   stop, and Engine.Steps the step relation over all of these.
-- - Player: the playback queue of one speaker, of MediaPlayerBridge in backend/bl_haos/ha/player.py.
--   Model has the records, Request the validation of start_queue, Queue the rest of start_queue with
--   control_queue, _invalidate_playback_session and _watch_processes, each cut where it waits for
--   the speaker's lock; Queue.Order, Laws, Moves, Rearranged, Shuffle, Stale and Playthrough have the proofs.
--   Player.Timeline is the timeline of a stream: _start_timeline, _pause_timeline, _resume_timeline,
--   _timeline_position and get_timeline; Player.Codec is _codec_token and _profile_for_codec.
-- - Diagnostics: DiagnosticsService of backend/bl_haos/diagnostics.py. Bounded is _bounded on the
--   values of Json, Diagnostics the rest, Events and Recorded have the proofs about the
--   ring and the failures. The
--   length of an event in JSON and the fresh identifiers are parameters.
-- - Incidents: IncidentRecorder of backend/bl_haos/incidents.py (emit, _findings, _append, sample);
--   Incidents.Laws is about the files and Incidents.Accounts about the counts. The context of a
--   sample and its comparison are parameters; days are date ordinals.
-- - Config: the speakers of ConfigStore in backend/bl_haos/config.py, in memory and in the file.
-- - Bluetooth: backend/bl_haos/bluetooth. Constants has the audio services and device classes, Device
--   and Adapter are device.py and adapter.py, Agent is agent.py over any callbacks, Results the
--   exceptions and what D-Bus replies. Manager is manager.py: Model its state, Table the tables and
--   the D-Bus signals, Pairing the window of operator consent and the agent's callbacks, Consent its opening and
--   closing while other tasks run, Lookup
--   ensure_device and the scans, Link connect_device, disconnect_device and remove_device, Trust
--   pair_and_trust, Transport initialize, mark_dbus_disconnected and recover_dbus. Coroutine has the
--   steps that may raise and the awaits, at which other tasks change the manager in any way.
-- - Tests: runs of the definitions, and the theorems at concrete inputs.
-- The engine reads and writes the registry: each operation on a profile returns what it notes, and
-- Tracking hands the notes to observe_speaker and record_suppressed_flap in order.
--
-- How the source is represented:
-- - Times are natural numbers of milliseconds, except those of the registry and the diagnostics, which
--   are ticks of a clock, and those of the pairing window, which are seconds. A difference
--   of times stops at 0; each is compared with a positive bound or guarded, where a negative one
--   decides the same. The readings of a clock within one call are an argument.
-- - A random jitter is an argument, in millionths. What the float arithmetic of the backoff gives at
--   each step, its test with logarithms and its growth, is a parameter of the engine's configuration.
-- - A coroutine runs without interruption between two awaits, so each stretch is one function: a
--   tick, the start of an attempt up to connect_device, the end of it, the done callback, and the
--   two halves of stop. The relation Step interleaves them in any order. A task that is cancelled
--   before it starts never runs. Python objects that the source compares with `is` (tasks and
--   profiles) carry numbers.
-- - For the engine, connect_device of the manager returns, raises, is busy or is cancelled: a
--   parameter of its step.
-- - D-Bus is not in the repository: its replies, the objects that it lists and the properties that it
--   tells are arguments. The dict of properties of a device is a record of those that BlueZ documents.
-- - A device object that a coroutine holds carries a number. Its fields are read from the table while
--   the table has that object; a write to an object that the table no longer has is not seen again.
-- - ensure_device goes through the adapters that the manager had when it was called. initialize,
--   disconnect_device and remove_device run without other tasks at their awaits.
-- - The digits of a PIN are those of ASCII, which validate_pin lets through in the API.
-- - Starting a stream (_play_url_locked) is one step of the queue, whose outcome is a parameter; what
--   comes while a stream starts is not modelled. The check of a URL, _text and random.shuffle are
--   parameters of the queue.
-- - No definition runs on fuel: every loop is a recursion over a list.
--
-- Not modelled: logging and call_trace; PipeWire and HTTP (api); the rest of the player
-- and the rest of the configuration store; in health.py token_fingerprint, authorized_bearer and
-- details that are containers. _reconnect_loop only repeats the tick.
pub mod Prelude
pub mod Dict
pub mod Text
pub mod Address
pub mod Redaction
pub mod Health
pub mod Reconnect
pub mod Player
pub mod Incidents
pub mod Config
pub mod Bluetooth
pub mod Json
pub mod Diagnostics
pub mod Media
pub mod Tests
