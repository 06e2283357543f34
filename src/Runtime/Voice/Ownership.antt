-- ===== src/Runtime/Voice/Ownership.antt =====
-- Who owns a voice recording (crates/xeneon-agent-core/src/runtime.rs, `process_voice_command` and
-- `cancel_voice_for_disconnected_client`).
use xeneon_edge_agents.Base.{
  ℕ, ◌≡◌, ◌≢◌, ◌⊎◌, refl, inl, inr, Result-cases, String, true, false, none, some, string_eq,
  option_eq, ==_ne, arith, ok, err,
}
use xeneon_edge_agents.Model.{ActionKind, PortalCommand, VoiceSnapshot, VoiceState, action_kind_eq}
use xeneon_edge_agents.Runtime.Services.{Services}
use xeneon_edge_agents.Voice.{VoiceActionError}
use xeneon_edge_agents.Runtime.Daemon.{Daemon}
use xeneon_edge_agents.Runtime.Voice.{
  set_voice, process_voice_command, cancel_voice_for_disconnected_client,
}

module _ (S : Services) where
  -- The disconnect of a client that owns no recording changes nothing and does not reach the voice
  -- client.
  disconnect_of_other :
      (client : String) (now : ℕ) (d : Daemon) (w : S.World)
      → d.state.voice_client_owner ≢ some client
      → cancel_voice_for_disconnected_client S client now d w ≡ (d, w)
  unfolding cancel_voice_for_disconnected_client
  disconnect_of_other client now d w other =
      rw (==_ne d.state.voice_client_owner (some client) other) refl

  owner :
      (command : PortalCommand) (client : String) (now : ℕ) (d : Daemon) (w : S.World)
      (started : VoiceSnapshot)
      → command.action ≡ ActionKind.voice_start
      → (S.voice_perform ActionKind.voice_start w).0 ≡ ok started
      → (process_voice_command S command client now d w).1.state.voice_client_owner ≡ some client
  unfolding process_voice_command set_voice
  owner command client now d w started asked begun =
      rw (process_voice_command, asked, begun) (ground arith)

  -- After a client has started a recording, its disconnect cancels it: the cancel reaches the voice
  -- client, no client owns a recording any more, and the portal shows what the cancel returned,
  -- or an error that is latched if the cancel failed.
  pub start-disconnect :
      (command : PortalCommand) (client : String) (now later : ℕ) (d : Daemon) (w v : S.World)
      (started : VoiceSnapshot)
      → command.action ≡ ActionKind.voice_start
      → (S.voice_perform ActionKind.voice_start w).0 ≡ ok started
      → let e = (process_voice_command S command client now d w).1 in
        let f = (cancel_voice_for_disconnected_client S client later e v).0 in
        (e.state.voice_client_owner ≡ some client)
        × (f.state.voice_client_owner ≡ none)
        × (((cancelled : VoiceSnapshot) × ((S.voice_perform ActionKind.voice_cancel v).0
                ≡ ok cancelled)
              × (f.published.voice ≡ cancelled)
              × (f.state.voice_error_latched ≡ false))
            ⊎ ((error : VoiceActionError) × ((S.voice_perform ActionKind.voice_cancel v).0
                  ≡ err error)
                × (f.published.voice.state ≡ VoiceState.error)
                × (f.state.voice_error_latched ≡ true)))
  unfolding process_voice_command cancel_voice_for_disconnected_client set_voice
  start-disconnect command client now later d w v started asked begun =
      elim (Result-cases (S.voice_perform ActionKind.voice_cancel v).0) [
        | inl (cancelled, done) ↦ ground (arith, owner command client now d w started asked begun)
        | inr (error, failed) ↦ ground (arith, owner command client now d w started asked begun)
      ]
