-- ===== src/Cs2/Channel/Runs.antt =====
-- Runs of the channel at concrete inputs, and its theorems applied there.
use lite_nvr.Common.{zero, suc, suc, ℕ, ◌≡◌, refl, false, List, [], ◌∷◌, ◌++◌, arith, All}
use lite_nvr.Common.Dict.{lookup, insert, remove, contains_key}
use lite_nvr.Common.Bytes.{IsByte}
use lite_nvr.Common.Int.{pos}
use lite_nvr.Cs2.Channel.{
  Sender, Lane, pushed, new, push, push_all, push_seq, push_loop, push_round, read_size, header,
  take_record, deliver, try_send, age, take_aged, keep, flush,
}
use lite_nvr.Cs2.Channel.Stream.{stream, joined, pending}
use lite_nvr.Cs2.Channel.Complete.{push_all_complete, short_record_late}
use lite_nvr.Cs2.Channel.Order.{Window, run}
use lite_nvr.Cs2.Channel.Arrival.{SeqLaw, push_seq_lem}
use lite_nvr.Cs2.Channel.InOrder.{Arrivals, start, arrive, Arrivals-in_order}

abbrev open_tx : Sender
open_tx = record { queue = []; bound = 100; is_closed = false }

abbrev new_lane : Lane
unfolding new
new_lane = record { channel = new 10; tx = open_tx }

abbrev hello : List ℕ
hello = b'h' ∷ b'e' ∷ b'l' ∷ b'l' ∷ b'o' ∷ []

abbrev hello_front : List ℕ
hello_front = 0 ∷ 0 ∷ 0 ∷ 5 ∷ b'h' ∷ b'e' ∷ []

abbrev hello_back : List ℕ
hello_back = b'l' ∷ b'l' ∷ b'o' ∷ []

push_all_complete_example :
    (l : Lane) × (push_all
        (hello_front ∷ hello_back ∷ [])
        (record { channel = new 10; tx = open_tx })
      ≡ pushed l)
    × (l.tx.queue ≡ hello ∷ [])
    × (pending l.channel ≡ [])
unfolding stream joined
push_all_complete_example =
    push_all_complete 10 (hello_front ∷ hello_back ∷ []) (hello ∷ []) open_tx (omega arith)
      (omega arith) refl refl (omega arith)

short_record_late_example :
    (m n : Lane) × (push (0 ∷ 0 ∷ 0 ∷ 2 ∷ 7 ∷ []) new_lane ≡ pushed m)
    × (push (8 ∷ []) m ≡ pushed n)
    × (n.tx ≡ open_tx)
    × (n.channel.wait_size ≡ 2)
    × (n.channel.wait_data ≡ 7 ∷ 8 ∷ [])
unfolding new
short_record_late_example =
    short_record_late (7 ∷ []) (8 ∷ []) new_lane refl refl (omega arith) (omega arith) (omega arith)

-- Frame 0 carries the record "A", frame 1 the record "B", all others nothing.
abbrev letters : ℕ → List ℕ
letters zero = 0 ∷ 0 ∷ 0 ∷ 1 ∷ b'A' ∷ []
letters (suc zero) = 0 ∷ 0 ∷ 0 ∷ 1 ∷ b'B' ∷ []
letters (suc (suc i)) = []

letters_bytes : (i : ℕ) → All IsByte (letters i)
letters_bytes zero = omega arith
letters_bytes (suc zero) = omega arith
letters_bytes (suc (suc i)) = tt

new-Window : Window letters 0 new_lane.channel
unfolding new lookup
new-Window = record {
  seq = refl;
  kept = λ s b h. cc;
  room = omega arith;
  sane = record { size = omega arith; bytes = tt };
}

push_seq_lem_example : SeqLaw letters letters_bytes 0 1 new_lane (push_seq 1 (letters 1) new_lane)
push_seq_lem_example =
    push_seq_lem letters letters_bytes 0 1 new_lane new-Window (omega arith) (omega arith)

abbrev after_second : Lane
after_second = record new_lane {
  channel = record (new_lane.channel) { push_buf = (1, letters 1) ∷ [] };
}

abbrev after_both : Lane
after_both = record {
  channel = record (new_lane.channel) { wait_seq = 2 };
  tx = record open_tx { queue = (b'A' ∷ []) ∷ (b'B' ∷ []) ∷ [] };
}

-- Frame 1 arrives before frame 0.
swapped : Arrivals letters letters_bytes 10 2 [] after_both
unfolding new push_seq age take_aged keep flush push push_loop push_round read_size header
    take_record deliver try_send lookup insert remove contains_key
swapped =
    arrive 0 (pos 2) 2 after_both
      (arrive 1 (pos 0) 0 after_second (start open_tx refl) (omega arith) (omega arith) refl refl)
      (omega arith) (omega arith) refl refl

Arrivals-in_order_example :
    Window letters 2 after_both.channel
    × (letters 0 ++ (letters 1 ++ [])
        ≡ stream ((b'A' ∷ []) ∷ (b'B' ∷ []) ∷ []) ++ pending after_both.channel)
unfolding joined run
Arrivals-in_order_example = Arrivals-in_order letters letters_bytes 10 2 [] after_both swapped
