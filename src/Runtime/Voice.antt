-- ===== src/Runtime/Voice.antt =====
-- The voice handlers of crates/xeneon-agent-core/src/runtime.rs: commands, disconnects, polling.
pub mod Ownership
use xeneon_edge_agents.Base.{
  ℕ, String, Bool, true, false, not, Option, none, some, ◌==◌, string_eq, option_eq, if◌then◌else◌,
  Result, ok, err,
}
use xeneon_edge_agents.Model.{
  ActionKind, ActionResult, PortalCommand, VoiceSnapshot, VoiceState, action_kind_eq, voice_same,
}
use xeneon_edge_agents.Runtime.State.{RuntimeState, action_ok, action_error}
use xeneon_edge_agents.Runtime.Services.{Services}
use xeneon_edge_agents.Voice.{VoiceActionError}
use xeneon_edge_agents.Runtime.Daemon.{Daemon, publish, touch, with_state}

unfoldable pub voice_action_error : String → VoiceActionError → ActionResult
unfolding action_error
voice_action_error request_id VoiceActionError.unavailable =
    action_error request_id "voice_unavailable" "voice input is unavailable"
voice_action_error request_id VoiceActionError.not_idle =
    action_error request_id "voice_busy" "voice input is not idle"
voice_action_error request_id VoiceActionError.not_owned =
    action_error request_id "voice_not_owned" "voice recording is not owned by the portal"
voice_action_error request_id VoiceActionError.command_failed =
    action_error request_id "command_error" "voice action failed"
voice_action_error request_id VoiceActionError.ownership =
    action_error request_id "command_error" "voice ownership could not be updated"

-- The message of a voice action that succeeded; the caller hands over voice actions only.
abbrev pub voice_message : ActionKind → String
voice_message ActionKind.voice_start = "voice_recording_started"
voice_message ActionKind.voice_stop = "voice_recording_stopped"
voice_message _ = "voice_recording_cancelled"

-- What a client is shown after a voice action, whether it failed, and whose recording runs.
unfoldable pub set_voice : VoiceSnapshot → Bool → Option String → ℕ → RuntimeState → RuntimeState
set_voice voice latched owner now s = record s {
  snapshot = touch now (record (s.snapshot) { voice = voice });
  voice_error_latched = latched;
  voice_client_owner = owner;
}

abbrev pub failed_voice : VoiceSnapshot → VoiceSnapshot
failed_voice v = record v { state = VoiceState.error }

module _ (S : Services) where
  unfoldable pub process_voice_command :
      PortalCommand → String → ℕ → Daemon → S.World → ActionResult × Daemon × S.World
  unfolding set_voice
  process_voice_command command client_id now d w =
      let (result, w') = S.voice_perform command.action w in
      elim result [
        | ok voice ↦
            let owner : Option String =
              if command.action == ActionKind.voice_start then some client_id else none in
            (
              action_ok command.request_id (voice_message command.action),
              publish (with_state d (set_voice voice false owner now d.state)),
              w',
            )
        | err error ↦
            let (voice, w'') = S.voice_snapshot w' in
            (
              voice_action_error command.request_id error,
              publish (
                  with_state d
                    (set_voice (failed_voice voice) true d.state.voice_client_owner now d.state)),
              w'',
            )
      ]

  unfoldable pub cancel_voice_for_disconnected_client :
      String → ℕ → Daemon → S.World → Daemon × S.World
  unfolding set_voice
  cancel_voice_for_disconnected_client client_id now d w =
      let (result, w') = S.voice_perform ActionKind.voice_cancel w in
      if not (d.state.voice_client_owner == some client_id) then (d, w) else elim result [
        | ok voice ↦ (publish (with_state d (set_voice voice false none now d.state)), w')
        | err error ↦
            let (voice, w'') = S.voice_snapshot w' in
            (publish (with_state d (set_voice (failed_voice voice) true none now d.state)), w'')
      ]

  unfoldable pub refresh_voice : ℕ → Daemon → S.World → Daemon × S.World
  refresh_voice now d w =
      let (sampled, w') = S.voice_snapshot w in
      let voice = if d.state.voice_error_latched then failed_voice sampled else sampled in
      if voice_same d.state.snapshot.voice voice then (d, w') else (
        publish (
            with_state d (record (d.state) {
              snapshot = record (d.state.snapshot) { voice = voice; generated_at_ms = now };
            })),
        w',
      )
