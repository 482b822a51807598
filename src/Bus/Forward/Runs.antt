-- ===== src/Bus/Forward/Runs.antt =====
-- Runs of the forwarding loops.
use lite_nvr.Bus.Forward.Loops.{convert_loop-closed, Quiet}
use lite_nvr.Common.{
  replicate, List, refl, some, true, false, [], ◌∷◌, ◌++◌, nat_eq, ◌≡◌, inr, ℕ, Bool, not, ◌==◌,
}
use lite_nvr.Bus.Forward.{
  Received, MuxSignal, Packet, demuxed_loop, convert_loop, mux_loop, packet, eof, command, lagged,
  closed, data_cmd, eof_cmd,
}
use lite_nvr.Bus.Forward.Merge.{
  mux_loop-Interleaves, all_given, Answered, joined, Tagged, with_index, Interleaves, Alone,
  all_ended, gives, ends,
}

abbrev key_frame : Packet
key_frame = record { index = 0; contents = 10 }

abbrev delta : Packet
delta = record { index = 0; contents = 11 }

abbrev voice : Packet
voice = record { index = 1; contents = 20 }

abbrev heard : List Received
heard =
    command (data_cmd key_frame)
    ∷ lagged 3
    ∷ command (data_cmd voice)
    ∷ command (data_cmd delta)
    ∷ []

heard-Quiet : Quiet heard
unfolding Quiet
heard-Quiet = tt

run_demuxed :
    (demuxed_loop 0 2 (heard ++ (command eof_cmd ∷ []))).items ≡ some key_frame ∷ some delta ∷ []
unfolding demuxed_loop
run_demuxed = refl

convert_loop-closed_example :
    (convert_loop (λ p. some p.contents) (heard ++ replicate 4 closed)).left ≡ false
convert_loop-closed_example = convert_loop-closed (λ p. some p.contents) heard 4 heard-Quiet

abbrev sources : List (List Tagged)
sources = ((0, key_frame) ∷ (0, delta) ∷ []) ∷ ((1, voice) ∷ []) ∷ []

abbrev order : List MuxSignal
order = packet 0 key_frame ∷ packet 1 voice ∷ eof ∷ packet 0 delta ∷ eof ∷ []

order-Interleaves : Interleaves sources order
order-Interleaves =
    gives [] (((1, voice) ∷ []) ∷ []) (0, key_frame) ((0, delta) ∷ []) _
      (gives (((0, delta) ∷ []) ∷ []) [] (1, voice) [] _
        (ends (((0, delta) ∷ []) ∷ []) [] _ (gives [] [] (0, delta) [] _ (ends [] [] _ all_ended))))

sources-Alone : Alone 0 sources
unfolding Alone joined with_index
sources-Alone = inr refl

abbrev second_fails : ℕ → Bool
second_fails n = not (n == 1)

mux_loop-Interleaves_example :
    let done = mux_loop second_fails false 2 0 0 order in
    (done.left ≡ true)
    × (with_index 0 (all_given done.items) ≡ joined 0 sources)
    × Answered second_fails 0 done.items
mux_loop-Interleaves_example =
    mux_loop-Interleaves second_fails false ((0, key_frame) ∷ (0, delta) ∷ [])
      (((1, voice) ∷ []) ∷ []) order 0 order-Interleaves sources-Alone
