-- ===== src/Bus/Forward/Loops.antt =====
-- bus.rs: what the forwarding loops write, and when they leave.
use lite_nvr.Common.{
  replicate, Option, Bool, take, ℕ, List, ap, refl, sym, none, some, true, false, [], ◌∷◌, ◌++◌,
  nat_eq, if◌then◌else◌, ◌==◌, ◌≡◌, zero, suc,
}
use lite_nvr.Bus.Forward.{
  send_frame, leaves, writing, Packet, Written, convert_loop, Received, demuxed_loop,
  mux_input_loop, data_cmd, eof_cmd, command, lagged, closed,
}

-- Nothing of these is an end: packets, and notes of packets lost.
unfoldable pub Quiet : List Received → Type 0
Quiet [] = Unit {0}
Quiet (command (data_cmd p) ∷ rs) = Quiet rs
Quiet (command eof_cmd ∷ rs) = ⊥
Quiet (lagged n ∷ rs) = Quiet rs
Quiet (closed ∷ rs) = ⊥

unfoldable pub packets_in : List Received → List Packet
packets_in [] = []
packets_in (command (data_cmd p) ∷ rs) = p ∷ packets_in rs
packets_in (command eof_cmd ∷ rs) = packets_in rs
packets_in (lagged n ∷ rs) = packets_in rs
packets_in (closed ∷ rs) = packets_in rs

unfoldable pub of_index : ℕ → List Packet → List Packet
of_index i [] = []
of_index i (p ∷ ps) = let rest = of_index i ps in if p.index == i then p ∷ rest else rest

unfoldable pub IsEnd : Received → Type 0
IsEnd (command (data_cmd p)) = ⊥
IsEnd (command eof_cmd) = Unit {0}
IsEnd (lagged n) = ⊥
IsEnd closed = Unit {0}

abbrev pub wrote : {W : Type 0} → List W → Written W
wrote ws = record { items = ws; left = true }

-- A stream that is muxed without an encoder gets all packets of its index and no others, in their
-- order, up to the end or the closing of the channel, where its loop leaves.
pub mux_input_loop_lem :
    (i : ℕ) (rs : List Received) (e : Received) (more : List Received)
    → Quiet rs
    → IsEnd e
    → mux_input_loop i (rs ++ (e ∷ more)) ≡ wrote (of_index i (packets_in rs))
unfolding mux_input_loop packets_in of_index Quiet IsEnd
mux_input_loop_lem i [] (command eof_cmd) more q end = refl
mux_input_loop_lem i [] closed more q end = refl
mux_input_loop_lem i [] (command (data_cmd p)) more q end = absurd end
mux_input_loop_lem i [] (lagged n) more q end = absurd end
mux_input_loop_lem i (command (data_cmd p) ∷ rs) e more q end =
    at (p.index == i) (mux_input_loop_lem i rs e more q end)
  where
    at :
        (b : Bool)
        → mux_input_loop i (rs ++ (e ∷ more)) ≡ wrote (of_index i (packets_in rs))
        → (if b
            then writing p (mux_input_loop i (rs ++ (e ∷ more)))
            else mux_input_loop i (rs ++ (e ∷ more)))
          ≡ wrote (if b then p ∷ of_index i (packets_in rs) else of_index i (packets_in rs))
    at true h = ap (writing p) h
    at false h = h
mux_input_loop_lem i (lagged n ∷ rs) e more q end = mux_input_loop_lem i rs e more q end
mux_input_loop_lem i (command eof_cmd ∷ rs) e more q end = absurd q
mux_input_loop_lem i (closed ∷ rs) e more q end = absurd q

take-nil : {A : Type 0} (n : ℕ) → take {A = A} n [] ≡ []
take-nil zero = refl
take-nil (suc n) = refl

abbrev pub shown : List Packet → List (Option Packet)
shown [] = none ∷ []
shown (p ∷ ps) = some p ∷ shown ps

-- A reader of demuxed packets that goes away after `room` items has got the first `room` of these: the
-- packets of its index in their order, and one `none` for the end of the input. The loop leaves.
pub demuxed_loop_lem :
    (i room : ℕ) (rs more : List Received)
    → Quiet rs
    → demuxed_loop i room (rs ++ (command eof_cmd ∷ more))
      ≡ wrote (take room (shown (of_index i (packets_in rs))))
unfolding demuxed_loop packets_in of_index Quiet
demuxed_loop_lem i zero [] more q = refl
demuxed_loop_lem i (suc n) [] more q = ap (λ l. wrote (none ∷ l)) (sym (take-nil n))
demuxed_loop_lem i room (command (data_cmd p) ∷ rs) more q =
    at (p.index == i) room (demuxed_loop_lem i room rs more q) (λ n. demuxed_loop_lem i n rs more q)
  where
    at :
        (b : Bool) (room : ℕ)
        → demuxed_loop i room (rs ++ (command eof_cmd ∷ more))
          ≡ wrote (take room (shown (of_index i (packets_in rs))))
        → ((n : ℕ)
            → demuxed_loop i n (rs ++ (command eof_cmd ∷ more))
              ≡ wrote (take n (shown (of_index i (packets_in rs)))))
        → (if b
            then elim room [
              | zero ↦ leaves
              | suc n ↦ writing (some p) (demuxed_loop i n (rs ++ (command eof_cmd ∷ more)))
            ]
            else demuxed_loop i room (rs ++ (command eof_cmd ∷ more)))
          ≡ wrote (
              take room
                (shown (if b then p ∷ of_index i (packets_in rs) else of_index i (packets_in rs))))
    at true zero h k = refl
    at true (suc n) h k = ap (writing (some p)) (k n)
    at false room h k = h
demuxed_loop_lem i room (lagged n ∷ rs) more q = demuxed_loop_lem i room rs more q
demuxed_loop_lem i room (command eof_cmd ∷ rs) more q = absurd q
demuxed_loop_lem i room (closed ∷ rs) more q = absurd q

-- The task that converts the packets of raw video does not leave when its channel closes: however
-- often it is told so, it asks again.
pub convert_loop-closed :
    (to_frame : Packet → Option ℕ) (rs : List Received) (n : ℕ)
    → Quiet rs
    → (convert_loop to_frame (rs ++ replicate n closed)).left ≡ false
unfolding convert_loop Quiet
convert_loop-closed to_frame [] zero q = refl
convert_loop-closed to_frame [] (suc n) q = convert_loop-closed to_frame [] n q
convert_loop-closed to_frame (command (data_cmd p) ∷ rs) n q =
    at (to_frame p) (convert_loop-closed to_frame rs n q)
  where
    at :
        (f : Option ℕ)
        → (convert_loop to_frame (rs ++ replicate n closed)).left ≡ false
        → (send_frame f (convert_loop to_frame (rs ++ replicate n closed))).left ≡ false
    at none h = h
    at (some f) h = h
convert_loop-closed to_frame (lagged k ∷ rs) n q = convert_loop-closed to_frame rs n q
convert_loop-closed to_frame (command eof_cmd ∷ rs) n q = absurd q
convert_loop-closed to_frame (closed ∷ rs) n q = absurd q
