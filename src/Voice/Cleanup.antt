-- ===== src/Voice/Cleanup.antt =====
-- The cleanup of crates/xeneon-agent-core/src/voice.rs after a daemon that went away, and the cycle
-- of one recording on a host that works.
use xeneon_edge_agents.Base.{
  ◌≡◌, refl, ap, ◌∙◌, String, true, false, none, List, string_eq, ok, arith,
}
use xeneon_edge_agents.Model.{ActionKind, VoiceState, voice_state_eq}
use xeneon_edge_agents.Voice.{
  Host, Marker, remove_owned_marker, claim_marker, start_claimed, start, finish, perform,
  read_voice_state, record_args, start_args, cleanup,
}
use xeneon_edge_agents.Voice.Ownership.{
  IsFileSystem, IsRemovable, is_regular, owns_marker_of, IsOwned, start-ok, finish-ok,
}

module _ (H : Host) (F : IsFileSystem H) where
  cleanup_absent : (w : H.World) → H.marker w ≡ Marker.absent → cleanup H w ≡ (none, w)
  unfolding cleanup
  cleanup_absent w h = rw (h, cleanup) refl

  cleanup-removed :
      (w : H.World) → (cleanup H w).0 ≡ none → H.marker (cleanup H w).1 ≡ Marker.absent
  unfolding cleanup
  cleanup-removed w h =
      ground
        (arith, F.remove_file_removes w, F.remove_file_removes (H.run (record_args "cancel") w).1)

  pub cleanup_twice :
      (w : H.World)
      → (cleanup H w).0 ≡ none
      → (H.marker (cleanup H w).1 ≡ Marker.absent)
        × (cleanup H (cleanup H w).1 ≡ (none, (cleanup H w).1))
  cleanup_twice w h = let gone = cleanup-removed w h in (gone, cleanup_absent (cleanup H w).1 gone)

-- A host on which nothing fails.
pub record IsHealthy (H : Host) : Type 0 where
  pub prepares : (w : H.World) → (H.prepare w).0 ≡ true
  pub creates : (w : H.World) → H.marker w ≡ Marker.absent → (H.create_new w).0 ≡ true
  pub writes : (text : String) (w : H.World) → (H.write_all text w).0 ≡ true
  pub runs : (args : List String) (w : H.World) → (H.run args w).0 ≡ true

module _ (H : Host) (F : IsFileSystem H) (R : IsRemovable H) (W : IsHealthy H)
    (token : String) where
  claim_marker-succeeds :
      (w : H.World) → H.marker w ≡ Marker.absent → (claim_marker H token w).0 ≡ ok tt
  unfolding claim_marker
  claim_marker-succeeds w free =
      let w₁ = (H.prepare w).1 in
      let w₂ = (H.create_new w₁).1 in
      ground (arith, W.prepares w, W.creates w₁ (F.prepare_keeps w ∙ free), W.writes token w₂)

  start-succeeds :
      (w : H.World)
      → H.marker w ≡ Marker.absent
      → read_voice_state H w ≡ VoiceState.idle
      → (start H token w).0 ≡ ok (record { state = VoiceState.recording; owned = true })
  unfolding start start_claimed
  start-succeeds w free idle =
      rw
        (
          idle,
          claim_marker-succeeds w free,
          start,
          start_claimed,
          W.runs start_args (claim_marker H token w).1,
        )
        refl

  finish-succeeds :
      (action : String) (resulting : VoiceState) (w : H.World)
      → IsOwned H token w
      → (finish H token action resulting w).0 ≡ ok (record { state = resulting; owned = false })
  unfolding finish remove_owned_marker
  finish-succeeds action resulting w mine =
      let w₁ = (H.run (record_args action) w).1 in
      let kept = F.run_keeps (record_args action) w ∙ mine in
      ground (
        arith,
        W.runs (record_args action) w,
        owns_marker_of H token w mine,
        owns_marker_of H token w₁ kept,
        R.removes w₁ (ap is_regular kept),
      )

  -- On a host on which nothing fails, with no marker and voxtype idle, a recording can be started
  -- and then stopped, and the marker is gone afterwards.
  pub recording-cycle :
      (w : H.World)
      → H.marker w ≡ Marker.absent
      → read_voice_state H w ≡ VoiceState.idle
      → let (started, w₁) = perform H token ActionKind.voice_start w in
        let (stopped, w₂) = perform H token ActionKind.voice_stop w₁ in
        (started ≡ ok (record { state = VoiceState.recording; owned = true }))
        × (stopped ≡ ok (record { state = VoiceState.processing; owned = false }))
        × (H.marker w₂ ≡ Marker.absent)
  unfolding perform
  recording-cycle w free idle =
      let begun = start-succeeds w free idle in
      let mine =
        (start-ok H F token w (record { state = VoiceState.recording; owned = true }) begun).0 in
      let ended = finish-succeeds "stop" VoiceState.processing (start H token w).1 mine in
      (
        begun,
        ended,
        (finish-ok H F token "stop" VoiceState.processing (start H token w).1
            (record { state = VoiceState.processing; owned = false }) ended).0,
      )
