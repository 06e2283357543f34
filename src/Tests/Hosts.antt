-- ===== src/Tests/Hosts.antt =====
-- A host for dictation, a Herdr server, and samples of the other adapters.
use xeneon_edge_agents.Base.Text.{is_whitespace}
use xeneon_edge_agents.Base.{
  ◌≡◌, ◌≢◌, refl, String, Bool, true, false, Option, some, string_eq, nat_eq, option_eq, ok, arith,
}
use xeneon_edge_agents.Model.{ActionKind, VoiceState}
use xeneon_edge_agents.Voice.{Host, Marker, perform, owns_marker, read_voice_state}
use xeneon_edge_agents.Voice.Ownership.{IsFileSystem, IsRemovable, perform-owned, perform-foreign}
use xeneon_edge_agents.Voice.Cleanup.{IsHealthy, recording-cycle}

record DictationWorld : Type 0 where
  file : Marker
  state : Option String

abbrev new_file : DictationWorld → Bool × DictationWorld
new_file w = elim w.file [
  | Marker.absent ↦ (true, record w { file = Marker.regular (some "") })
  | _ ↦ (false, w)
]

abbrev removed : DictationWorld → Bool × DictationWorld
removed w = elim w.file [
  | Marker.regular _ ↦ (true, record w { file = Marker.absent })
  | Marker.absent ↦ (false, w)
  | Marker.special ↦ (false, w)
  | Marker.hidden ↦ (false, w)
]

-- A host on which nothing fails and voxtype's state stays as it is.
abbrev host : Host
host = record {
  World = DictationWorld;
  marker = λ w. w.file;
  state_text = λ w. w.state;
  run = λ _ w. (true, w);
  prepare = λ w. (true, w);
  create_new = new_file;
  write_all = λ text w. (true, record w { file = Marker.regular (some text) });
  remove_file = removed;
}

abbrev fresh : DictationWorld
fresh = record { file = Marker.absent; state = some "idle" }

abbrev foreign : DictationWorld
foreign = record { file = Marker.regular (some "other"); state = some "idle" }

host-IsFileSystem : IsFileSystem host
host-IsFileSystem = record {
  run_keeps = λ args w. refl;
  prepare_keeps = λ w. refl;
  create_new_absent = λ w h. ground arith;
  create_new_regular = λ w h. ground arith;
  create_new_fails = λ w h. ground arith;
  write_all_stores = λ text w h k. refl;
  write_all_regular = λ text w h. refl;
  remove_file_removes = λ w h. ground arith;
  remove_file_fails = λ w h. ground arith;
}

host-IsRemovable : IsRemovable host
host-IsRemovable = record { removes = λ w h. ground arith }

host-IsHealthy : IsHealthy host
host-IsHealthy = record {
  prepares = λ w. refl;
  creates = λ w h. ground arith;
  writes = λ text w. refl;
  runs = λ args w. refl;
}

idle_first : read_voice_state host fresh ≡ VoiceState.idle
unfolding read_voice_state string_eq is_whitespace nat_eq
idle_first = refl

recording-cycle_example :
    let (started, w₁) = perform host "me" ActionKind.voice_start fresh in
    let (stopped, w₂) = perform host "me" ActionKind.voice_stop w₁ in
    (started ≡ ok (record { state = VoiceState.recording; owned = true }))
    × (stopped ≡ ok (record { state = VoiceState.processing; owned = false }))
    × (w₂.file ≡ Marker.absent)
recording-cycle_example =
    recording-cycle host host-IsFileSystem host-IsRemovable host-IsHealthy "me" fresh refl
      idle_first

started :
    (perform host "me" ActionKind.voice_start fresh).0
    ≡ ok (record { state = VoiceState.recording; owned = true })
unfolding perform string_eq is_whitespace nat_eq
started = refl

perform-owned_example :
    owns_marker host "me" (perform host "me" ActionKind.voice_start fresh).1 ≡ true
perform-owned_example =
    perform-owned host host-IsFileSystem "me" ActionKind.voice_start fresh
      (record { state = VoiceState.recording; owned = true }) started

not_absent : host.marker foreign ≢ Marker.absent
not_absent p = cc

not_mine : owns_marker host "me" foreign ≡ false
unfolding owns_marker string_eq
not_mine = refl

perform-foreign_example :
    (perform host "me" ActionKind.voice_start foreign).1.file ≡ Marker.regular (some "other")
perform-foreign_example =
    perform-foreign host host-IsFileSystem "me" ActionKind.voice_start foreign not_absent not_mine
