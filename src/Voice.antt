-- ===== src/Voice.antt =====
-- crates/xeneon-agent-core/src/voice.rs: dictation by voxtype, which the daemon may stop only while
-- its own token stands in the marker file.
pub mod Ownership
pub mod Cleanup
use xeneon_edge_agents.Base.{
  String, Bool, true, false, Option, none, some, List, [], ◌∷◌, ◌==◌, string_eq, not, ◌&&◌,
  if◌then◌else◌, Result, ok, err,
}
use xeneon_edge_agents.Base.Text.{trim}
use xeneon_edge_agents.Model.{ActionKind, VoiceSnapshot, VoiceState, voice_state_eq}

pub data VoiceActionError : Type 0 where
  unavailable not_idle not_owned command_failed ownership : VoiceActionError

-- What stands at the path of the marker: a regular file, with its text if that can be read, another
-- kind of file, or something whose metadata cannot be read.
pub data Marker : Type 0 where
  absent : Marker
  regular : Option String → Marker
  special hidden : Marker

-- What the controller reaches: voxtype, the file of its state, and the marker file. A call that
-- fails answers `false`.
pub record Host : Type 1 where
  pub World : Type 0
  pub marker : World → Marker
  -- The text of voxtype's state file.
  pub state_text : World → Option String
  -- `run_voxtype`, with its time limit.
  pub run : List String → World → Bool × World
  -- `create_dir_all` and `set_permissions` of the marker's directory.
  pub prepare : World → Bool × World
  -- `open` with `create_new`, and `write_all` into the file that it opened.
  pub create_new : World → Bool × World
  pub write_all : String → World → Bool × World
  pub remove_file : World → Bool × World

unfoldable pub normalize_voice_state : String → VoiceState
unfolding trim
normalize_voice_state value =
    let text = trim value in
    if text == "idle"
    then VoiceState.idle
    else if text == "recording"
    then VoiceState.recording
    else if text == "streaming"
    then VoiceState.processing
    else if text == "transcribing"
    then VoiceState.processing
    else VoiceState.unavailable

abbrev pub start_args : List String
start_args = "record" ∷ "start" ∷ "--type" ∷ "--no-auto-submit" ∷ "--no-smart-auto-submit" ∷ []

abbrev pub record_args : String → List String
record_args action = "record" ∷ action ∷ []

module _ (H : Host) where
  unfoldable pub read_voice_state : H.World → VoiceState
  unfolding normalize_voice_state
  read_voice_state w = elim (H.state_text w) [
    | some contents ↦ normalize_voice_state contents
    | none ↦ VoiceState.unavailable
  ]

  unfoldable pub owns_marker : String → H.World → Bool
  owns_marker token w = elim (H.marker w) [
    | Marker.regular text ↦ elim text [ some contents ↦ contents == token | none ↦ false ]
    | Marker.absent ↦ false
    | Marker.special ↦ false
    | Marker.hidden ↦ false
  ]

  unfoldable pub remove_owned_marker :
      String → H.World → Result (Unit {0}) VoiceActionError × H.World
  unfolding owns_marker
  remove_owned_marker token w =
      let (removed, w') = H.remove_file w in
      if not (owns_marker token w)
      then (err VoiceActionError.not_owned, w)
      else if removed
      then (ok tt, w')
      else (err VoiceActionError.ownership, w')

  unfoldable pub claim_marker : String → H.World → Result (Unit {0}) VoiceActionError × H.World
  claim_marker token w =
      let (prepared, w₁) = H.prepare w in
      let (created, w₂) = H.create_new w₁ in
      let (written, w₃) = H.write_all token w₂ in
      if not prepared
      then (err VoiceActionError.ownership, w₁)
      else if not created
      then (err VoiceActionError.ownership, w₂)
      else if not written
      then (err VoiceActionError.ownership, (H.remove_file w₃).1)
      else (ok tt, w₃)

  unfoldable pub start_claimed : String → H.World → Result VoiceSnapshot VoiceActionError × H.World
  unfolding remove_owned_marker
  start_claimed token w =
      let (started, w₁) = H.run start_args w in
      let (_, w₂) = H.run (record_args "cancel") w₁ in
      let (_, w₃) = remove_owned_marker token w₂ in
      if started
      then (ok (record { state = VoiceState.recording; owned = true }), w₁)
      else (err VoiceActionError.command_failed, w₃)

  unfoldable pub start : String → H.World → Result VoiceSnapshot VoiceActionError × H.World
  unfolding read_voice_state claim_marker start_claimed
  start token w =
      let (claimed, w₁) = claim_marker token w in
      let begun = start_claimed token w₁ in
      elim (read_voice_state w) [
        | VoiceState.unavailable ↦ (err VoiceActionError.unavailable, w)
        | VoiceState.recording ↦ (err VoiceActionError.not_idle, w)
        | VoiceState.processing ↦ (err VoiceActionError.not_idle, w)
        | VoiceState.error ↦ (err VoiceActionError.not_idle, w)
        | VoiceState.idle ↦ elim claimed [ err e ↦ (err e, w₁) | ok _ ↦ begun ]
      ]

  unfoldable pub finish :
      String → String → VoiceState → H.World → Result VoiceSnapshot VoiceActionError × H.World
  unfolding owns_marker remove_owned_marker
  finish token action resulting w =
      let (done, w₁) = H.run (record_args action) w in
      let (removed, w₂) = remove_owned_marker token w₁ in
      if not (owns_marker token w)
      then (err VoiceActionError.not_owned, w)
      else if not done
      then (err VoiceActionError.command_failed, w₁)
      else elim removed [
        | err e ↦ (err e, w₂)
        | ok _ ↦ (ok (record { state = resulting; owned = false }), w₂)
      ]

  unfoldable pub perform :
      String → ActionKind → H.World → Result VoiceSnapshot VoiceActionError × H.World
  unfolding start finish
  perform token ActionKind.voice_start w = start token w
  perform token ActionKind.voice_stop w = finish token "stop" VoiceState.processing w
  perform token ActionKind.voice_cancel w = finish token "cancel" VoiceState.idle w
  perform token _ w = (err VoiceActionError.command_failed, w)

  unfoldable pub snapshot : String → H.World → VoiceSnapshot
  unfolding read_voice_state owns_marker
  snapshot token w = record { state = read_voice_state w; owned = owns_marker token w }

  -- `cleanup_owned_dictation_at`, which runs when no daemon does; `none` where it succeeds.
  unfoldable pub cleanup : H.World → Option String × H.World
  unfolding read_voice_state
  cleanup w =
      let idle = read_voice_state w == VoiceState.idle in
      let (cancelled, w₁) = H.run (record_args "cancel") w in
      let (removed, w₂) = H.remove_file (if idle then w else w₁) in
      elim (H.marker w) [
        | Marker.absent ↦ (none, w)
        | Marker.special ↦ (some "voice ownership marker is not a regular file", w)
        | Marker.hidden ↦ (some "voice ownership marker is unreadable", w)
        | Marker.regular _ ↦
            if not idle && not cancelled
            then (some "voice cleanup failed", w₁)
            else if removed
            then (none, w₂)
            else (some "removing voice ownership marker", w₂)
      ]
