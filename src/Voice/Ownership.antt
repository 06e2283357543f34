-- ===== src/Voice/Ownership.antt =====
-- The marker file says who records: what the controller of crates/xeneon-agent-core/src/voice.rs
-- keeps of that, on a host whose files behave.
use xeneon_edge_agents.Base.{
  ◌≡◌, ◌≢◌, refl, sym, ◌∙◌, String, Bool, true, false, some, List, ==_self, string_eq, ok, err,
  arith,
}
use xeneon_edge_agents.Model.{ActionKind, VoiceSnapshot, VoiceState}
use xeneon_edge_agents.Voice.{
  Host, Marker, VoiceActionError, owns_marker, remove_owned_marker, claim_marker, start_claimed,
  start, finish, perform, record_args, start_args,
}

abbrev pub is_regular : Marker → Bool
is_regular (Marker.regular _) = true
is_regular _ = false

-- What the file operations promise of the marker, and that voxtype leaves it alone.
pub record IsFileSystem (H : Host) : Type 0 where
  pub run_keeps : (args : List String) (w : H.World) → H.marker (H.run args w).1 ≡ H.marker w
  pub prepare_keeps : (w : H.World) → H.marker (H.prepare w).1 ≡ H.marker w
  pub create_new_absent : (w : H.World) → (H.create_new w).0 ≡ true → H.marker w ≡ Marker.absent
  pub create_new_regular :
      (w : H.World) → (H.create_new w).0 ≡ true → is_regular (H.marker (H.create_new w).1) ≡ true
  pub create_new_fails :
      (w : H.World) → (H.create_new w).0 ≡ false → H.marker (H.create_new w).1 ≡ H.marker w
  pub write_all_stores :
      (text : String) (w : H.World)
      → is_regular (H.marker w) ≡ true
      → (H.write_all text w).0 ≡ true
      → H.marker (H.write_all text w).1 ≡ Marker.regular (some text)
  pub write_all_regular :
      (text : String) (w : H.World)
      → is_regular (H.marker w) ≡ true
      → is_regular (H.marker (H.write_all text w).1) ≡ true
  pub remove_file_removes :
      (w : H.World) → (H.remove_file w).0 ≡ true → H.marker (H.remove_file w).1 ≡ Marker.absent
  pub remove_file_fails :
      (w : H.World) → (H.remove_file w).0 ≡ false → H.marker (H.remove_file w).1 ≡ H.marker w

-- A regular file can be removed.
pub record IsRemovable (H : Host) : Type 0 where
  pub removes : (w : H.World) → is_regular (H.marker w) ≡ true → (H.remove_file w).0 ≡ true

module _ (H : Host) (token : String) where
  -- The controller's own token stands in the marker.
  abbrev pub IsOwned : H.World → Type 0
  IsOwned w = H.marker w ≡ Marker.regular (some token)

  pub owns_marker_of : (w : H.World) → IsOwned w → owns_marker H token w ≡ true
  unfolding owns_marker
  owns_marker_of w h = rw (h, owns_marker) (==_self token)

  pub owns_marker-IsOwned : (w : H.World) → owns_marker H token w ≡ true → IsOwned w
  unfolding owns_marker
  owns_marker-IsOwned w h = ground (arith)

  pub owns_marker_absent :
      (w : H.World) → H.marker w ≡ Marker.absent → owns_marker H token w ≡ false
  unfolding owns_marker
  owns_marker_absent w h = rw (h, owns_marker) refl

module _ (H : Host) (F : IsFileSystem H) (token : String) where
  claim_marker-ok :
      (w : H.World)
      → (claim_marker H token w).0 ≡ ok tt
      → IsOwned H token (claim_marker H token w).1
  unfolding claim_marker
  claim_marker-ok w h =
      let w₁ = (H.prepare w).1 in
      let w₂ = (H.create_new w₁).1 in
      ground (arith, F.create_new_regular w₁, F.write_all_stores token w₂)

  claim_marker-foreign :
      (w : H.World)
      → H.marker w ≢ Marker.absent
      → ((claim_marker H token w).0 ≡ err VoiceActionError.ownership)
        × (H.marker (claim_marker H token w).1 ≡ H.marker w)
  unfolding claim_marker
  claim_marker-foreign w taken =
      let w₁ = (H.prepare w).1 in
      ground (arith, F.prepare_keeps w, F.create_new_absent w₁, F.create_new_fails w₁)

  remove_owned_marker-ok :
      (w : H.World)
      → (remove_owned_marker H token w).0 ≡ ok tt
      → H.marker (remove_owned_marker H token w).1 ≡ Marker.absent
  unfolding remove_owned_marker
  remove_owned_marker-ok w h = ground (arith, F.remove_file_removes w)

  start_claimed-ok :
      (w : H.World) (v : VoiceSnapshot)
      → (start_claimed H token w).0 ≡ ok v
      → (H.marker (start_claimed H token w).1 ≡ H.marker w) × (v.owned ≡ true)
  unfolding start_claimed
  start_claimed-ok w v h = ground (arith, F.run_keeps start_args w)

  pub start-ok :
      (w : H.World) (v : VoiceSnapshot)
      → (start H token w).0 ≡ ok v
      → IsOwned H token (start H token w).1 × (v.owned ≡ true)
  unfolding start
  start-ok w v h =
      let w₁ = (claim_marker H token w).1 in
      ground (arith, claim_marker-ok w, start_claimed-ok w₁ v)

  pub finish-ok :
      (action : String) (resulting : VoiceState) (w : H.World) (v : VoiceSnapshot)
      → (finish H token action resulting w).0 ≡ ok v
      → (H.marker (finish H token action resulting w).1 ≡ Marker.absent) × (v.owned ≡ false)
  unfolding finish
  finish-ok action resulting w v h =
      ground (arith, remove_owned_marker-ok (H.run (record_args action) w).1)

  finish-owned :
      (action : String) (resulting : VoiceState) (w : H.World) (v : VoiceSnapshot)
      → (finish H token action resulting w).0 ≡ ok v
      → owns_marker H token (finish H token action resulting w).1 ≡ v.owned
  finish-owned action resulting w v h =
      let (gone, not_owned) = finish-ok action resulting w v h in
      owns_marker_absent H token (finish H token action resulting w).1 gone ∙ sym not_owned

  -- On a host whose file operations behave and whose voxtype leaves the marker alone, after a
  -- voice action that succeeds the controller's token stands in the marker exactly where the
  -- result says that the recording is owned.
  pub perform-owned :
      (action : ActionKind) (w : H.World) (v : VoiceSnapshot)
      → (perform H token action w).0 ≡ ok v
      → owns_marker H token (perform H token action w).1 ≡ v.owned
  unfolding perform
  perform-owned ActionKind.voice_start w v h =
      let (mine, owned) = start-ok w v h in
      owns_marker_of H token (start H token w).1 mine ∙ sym owned
  perform-owned ActionKind.voice_stop w v h = finish-owned "stop" VoiceState.processing w v h
  perform-owned ActionKind.voice_cancel w v h = finish-owned "cancel" VoiceState.idle w v h
  perform-owned _ w v h = cc

  start-foreign :
      (w : H.World) → H.marker w ≢ Marker.absent → H.marker (start H token w).1 ≡ H.marker w
  unfolding start
  start-foreign w taken = ground (arith, claim_marker-foreign w taken)

  -- On a host whose file operations behave and whose voxtype leaves the marker alone, no voice
  -- action changes a marker that stands and is not the controller's.
  pub perform-foreign :
      (action : ActionKind) (w : H.World)
      → H.marker w ≢ Marker.absent
      → owns_marker H token w ≡ false
      → H.marker (perform H token action w).1 ≡ H.marker w
  unfolding perform finish
  perform-foreign ActionKind.voice_start w taken other = start-foreign w taken
  perform-foreign ActionKind.voice_stop w taken other = rw other refl
  perform-foreign ActionKind.voice_cancel w taken other = rw other refl
  perform-foreign _ w taken other = refl

  pub owns_marker_same :
      (w v : H.World) → H.marker v ≡ H.marker w → owns_marker H token v ≡ owns_marker H token w
  unfolding owns_marker
  owns_marker_same w v h = rw (h, owns_marker) refl

  module _ (R : IsRemovable H) where
    claim_marker-err :
        (w : H.World) (e : VoiceActionError)
        → owns_marker H token w ≡ false
        → (claim_marker H token w).0 ≡ err e
        → owns_marker H token (claim_marker H token w).1 ≡ false
    unfolding claim_marker
    claim_marker-err w e free h =
        let w₁ = (H.prepare w).1 in
        let w₂ = (H.create_new w₁).1 in
        let w₃ = (H.write_all token w₂).1 in
        ground (
          arith,
          owns_marker_same w w₁ (F.prepare_keeps w),
          owns_marker_same w₁ w₂,
          F.create_new_fails w₁,
          F.create_new_regular w₁,
          F.write_all_regular token w₂,
          R.removes w₃,
          F.remove_file_removes w₃,
          owns_marker_absent H token (H.remove_file w₃).1,
        )

    -- Whoever stood in the marker, it is not the controller after a removal.
    remove_owned_marker-released :
        (w : H.World) → owns_marker H token (remove_owned_marker H token w).1 ≡ false
    unfolding remove_owned_marker
    remove_owned_marker-released w = ground (
      arith,
      owns_marker-IsOwned H token w,
      R.removes w,
      F.remove_file_removes w,
      owns_marker_absent H token (H.remove_file w).1,
    )

    start_claimed-err :
        (w : H.World) (e : VoiceActionError)
        → (start_claimed H token w).0 ≡ err e
        → owns_marker H token (start_claimed H token w).1 ≡ false
    unfolding start_claimed
    start_claimed-err w e h =
        let w₂ = (H.run (record_args "cancel") (H.run start_args w).1).1 in
        ground (arith, remove_owned_marker-released w₂)

    pub start-released :
        (w : H.World) (e : VoiceActionError)
        → owns_marker H token w ≡ false
        → (start H token w).0 ≡ err e
        → owns_marker H token (start H token w).1 ≡ false
    unfolding start
    start-released w e free h =
        let w₁ = (claim_marker H token w).1 in
        ground (arith, claim_marker-err w e free, start_claimed-err w₁ e)
