-- ===== src/Recorder/Session/Holds.antt =====
-- recorder.rs: with an output that does not fail, a session's files hold what it recorded.
use mathlib.Core.List.{map-append}
use lite_nvr.Common.{
  ◌^◌, ◌%◌, ◌+◌, ℕ, Bool, true, false, Option, none, some, List, [], ◌∷◌, ◌++◌, String, map, ◌≡◌,
  ◌&&◌, All, All-append, refl, sym, ap, ◌∙◌, subst, Bool-cases, inl, inr, append_assoc, append-nil,
  ok, nat_eq, ◌==◌,
}
use lite_nvr.Common.Int.{pos_part, sub_i64, ℤ}
use lite_nvr.Recorder.Rotation.{should_rotate}
use lite_nvr.Recorder.Config.{RecorderConfig, Selected, Container, end_of_stream, channel_closed}
use lite_nvr.Bus.Muxer.{RawPacket}
use lite_nvr.Recorder.Ticks.{pkt_origin_us, reset}
use lite_nvr.Recorder.Segment.{
  Output, SegmentWriter, SegmentInfo, open_writer, write, finish, counted, measured,
}
use lite_nvr.Recorder.Session.{
  Received, packet, eof, recv_failed, cancelled, Ending, stopped, broke, Session, packet_loop,
  close_writer, take_packet, with_writer, is_selected, split_ok, is_due, after_packet, after_write,
  after_open, after_finish, announced, open_segment, going,
}
use lite_nvr.Recorder.Session.Cut.{
  Entry, chosen, from_start, ends, Holds, Cut, no_file, last_file, next_file,
}

pub record Reliable (output : Output) : Type 0 where
  pub created : (dir name : String) (c : Container) → output.creates dir name c ≡ true
  pub wrote : (file : List RawPacket) (p : RawPacket) → output.writes file p ≡ true
  pub finished : (file : List RawPacket) → output.finishes file ≡ true

unfoldable pub IsEnd : Received → Type 0
IsEnd (packet p now) = ⊥
IsEnd eof = Unit {0}
IsEnd recv_failed = Unit {0}
IsEnd cancelled = Unit {0}

unfoldable pub ending_of : Received → Ending
ending_of (packet p now) = stopped
ending_of eof = broke end_of_stream
ending_of recv_failed = broke channel_closed
ending_of cancelled = stopped

unfoldable pub as_events : List Entry → List Received
as_events [] = []
as_events ((p, now) ∷ es) = packet p now ∷ as_events es

counted-keeps :
    (o : Option ℤ) (q : RawPacket) (w : SegmentWriter)
    → ((measured o q w).base_us ≡ w.base_us) × ((measured o q w).start_wall ≡ w.start_wall)
unfolding measured
counted-keeps none q w = (refl, refl)
counted-keeps (some pts) q w = elim (Bool-cases (q.index == w.primary_index)) [
  | inl e ↦ rw e (refl, refl)
  | inr e ↦ rw e (refl, refl)
]

module _ (output : Output) (format : String → String → ℕ → String) (config : RecorderConfig)
    (good : Reliable output) (sel : Selected) where
  -- An open writer, with the packets that its file has so far.
  record Writes (w : SegmentWriter) (head : Entry) (seen : List Entry) : Type 0 where
    pub base : w.base_us ≡ pkt_origin_us head.0
    pub wall : w.start_wall ≡ head.1
    pub filed : w.file ≡ map (λ (e : Entry). reset (pkt_origin_us head.0) e.0) (head ∷ seen)
    pub at_split : split_ok sel head.0 ≡ true
    pub whole : All (λ e. ends sel config head e ≡ false) seen

  due_eq :
      {w : SegmentWriter} {head : Entry} {seen : List Entry} (p : RawPacket) (now : ℕ)
      → Writes w head seen
      → (split_ok sel p && is_due config w p now) ≡ ends sel config head (p, now)
  unfolding is_due ends
  due_eq p now h i =
      split_ok sel p
      && should_rotate config.align_to_wall_clock config.segment_time (h.wall i) now
          (pos_part (sub_i64 (pkt_origin_us p) (h.base i)))

  IsOpened : SegmentWriter → Entry → Type 0
  IsOpened w e =
      (open_segment output format config sel (pkt_origin_us e.0) e.1 ≡ ok w)
      × (w.base_us ≡ pkt_origin_us e.0)
      × (w.start_wall ≡ e.1)
      × (w.file ≡ [])

  opens : (e : Entry) → (w : SegmentWriter) × IsOpened w e
  unfolding open_segment open_writer IsOpened
  opens e = rw (good.created _ _ _) (_, (refl, refl, refl, refl))

  written :
      (w : SegmentWriter) (p : RawPacket)
      → (w' : SegmentWriter) × (write output w p ≡ ok w')
        × (w'.base_us ≡ w.base_us)
        × (w'.start_wall ≡ w.start_wall)
        × (w'.file ≡ w.file ++ (reset w.base_us p ∷ []))
  unfolding write counted
  written w p =
      let keeps =
        counted-keeps (reset w.base_us p).pts (reset w.base_us p)
          (record w { size_bytes = (w.size_bytes + p.size) % 2 ^ 64 }) in
      rw (good.wrote w.file (reset w.base_us p)) (_, refl, keeps.0, keeps.1, refl)

  finishes :
      (w : SegmentWriter)
      → (f : SegmentInfo) × (finish output w ≡ ok f)
        × (f.file ≡ w.file)
        × (f.start_wall ≡ w.start_wall)
  unfolding finish
  finishes w = rw (good.finished w.file) (_, refl, refl, refl)

  take_skip :
      (w : Option SegmentWriter) (p : RawPacket) (now : ℕ)
      → is_selected sel p ≡ false
      → take_packet output format config sel w p now ≡ going [] w
  unfolding take_packet
  take_skip w p now e = rw e refl

  -- A packet that does not end the file goes into it.
  take_keep :
      {w : SegmentWriter} {head : Entry} {seen : List Entry} (p : RawPacket) (now : ℕ)
      → Writes w head seen
      → is_selected sel p ≡ true
      → ends sel config head (p, now) ≡ false
      → (w' : SegmentWriter) × (take_packet output format config sel (some w) p now
          ≡ going [] (some w'))
        × Writes w' head (seen ++ ((p, now) ∷ []))
  unfolding take_packet with_writer after_write
  take_keep {w} {head} {seen} p now h chose same =
      let (w', done, base, wall, filed) = written w p in
      (
        w',
        rw (chose, due_eq p now h, same, done) refl,
        record {
          base = base ∙ h.base;
          wall = wall ∙ h.wall;
          filed = filed ∙ more;
          at_split = h.at_split;
          whole = All-append (λ e. ends sel config head e ≡ false) seen _ h.whole (same, tt);
        },
      )
    where
      more :
          w.file ++ (reset w.base_us p ∷ [])
          ≡ map (λ (e : Entry). reset (pkt_origin_us head.0) e.0) (head ∷ (seen ++ ((p, now) ∷ [])))
      more =
          (λ i. h.filed i ++ (reset (h.base i) p ∷ []))
          ∙ sym (
              map-append (λ (e : Entry). reset (pkt_origin_us head.0) e.0) (head ∷ seen)
                ((p, now) ∷ []))

  -- A packet that ends the file starts the next one.
  started :
      (w : SegmentWriter) (e : Entry)
      → IsOpened w e
      → split_ok sel e.0 ≡ true
      → (w' : SegmentWriter) × (write output w e.0 ≡ ok w') × Writes w' e []
  unfolding IsOpened
  started w e o split =
      let (w', done, base, wall, filed) = written w e.0 in
      (
        w',
        done,
        record {
          base = base ∙ o.1;
          wall = wall ∙ o.2;
          filed = filed ∙ (λ i. (o.3) i ++ (reset ((o.1) i) e.0 ∷ []));
          at_split = split;
          whole = tt;
        },
      )

  closes :
      {w : SegmentWriter} {head : Entry} {seen : List Entry}
      → Writes w head seen
      → (f : SegmentInfo) × (finish output w ≡ ok f) × Holds sel config f head seen
  closes {w} h =
      let (f, done, file, wall) = finishes w in
      (
        f,
        done,
        record {
          held = file ∙ h.filed;
          started = wall ∙ h.wall;
          at_split = h.at_split;
          whole = h.whole;
        },
      )

  take_turn :
      {w : SegmentWriter} {head : Entry} {seen : List Entry} (p : RawPacket) (now : ℕ)
      → Writes w head seen
      → is_selected sel p ≡ true
      → ends sel config head (p, now) ≡ true
      → split_ok sel p ≡ true
      → (f : SegmentInfo) × (w' : SegmentWriter) × (take_packet output format config sel
            (some w)
            p
            now
          ≡ going (f ∷ []) (some w'))
        × Holds sel config f head seen
        × Writes w' (p, now) []
  unfolding take_packet with_writer after_finish after_open after_write IsOpened
  take_turn {w} {head} {seen} p now h chose over split =
      let (f, done, holds) = closes h in
      let (v, o) = opens (p, now) in
      let (w', wrote, writes) = started v (p, now) o split in
      (f, w', rw (chose, due_eq p now h, over, done, o.0, wrote) refl, holds, writes)

  take_first :
      (p : RawPacket) (now : ℕ)
      → is_selected sel p ≡ true
      → split_ok sel p ≡ true
      → (w' : SegmentWriter) × (take_packet output format config sel none p now
          ≡ going [] (some w'))
        × Writes w' (p, now) []
  unfolding take_packet with_writer after_open after_write IsOpened
  take_first p now chose split =
      let (v, o) = opens (p, now) in
      let (w', wrote, writes) = started v (p, now) o split in
      (w', rw (chose, split, o.0, wrote) refl, writes)

  -- The files of the session hold all of these packets, and its end is that of the event.
  Done : Session → List Entry → Received → Type 0
  Done s all e = Cut sel config s.sent all × (s.unfinished ≡ none) × (s.ending ≡ ending_of e)

  ends-split :
      (head : Entry) (p : RawPacket) (now : ℕ)
      → ends sel config head (p, now) ≡ true
      → split_ok sel p ≡ true
  unfolding ends
  ends-split head p now h = first _ _ h
    where
      first : (a b : Bool) → (a && b) ≡ true → a ≡ true
      first true b h = refl
      first false b h = h

  -- An event that ends the session finishes the file.
  closing :
      {w : SegmentWriter} {head : Entry} {seen : List Entry} (e : Received) (more : List Received)
      → IsEnd e
      → Writes w head seen
      → Done (packet_loop output format config sel (some w) (e ∷ more)) (head ∷ seen) e
  unfolding packet_loop close_writer IsEnd ending_of Done
  closing eof more end h = let (f, done, holds) = closes h in rw done (last_file holds, refl, refl)
  closing recv_failed more end h =
      let (f, done, holds) = closes h in rw done (last_file holds, refl, refl)
  closing cancelled more end h =
      let (f, done, holds) = closes h in rw done (last_file holds, refl, refl)
  closing (packet p now) more end h = absurd end

  stepped :
      (w w' : Option SegmentWriter) (p : RawPacket) (now : ℕ) (r : List Received)
      (l : List SegmentInfo)
      → take_packet output format config sel w p now ≡ going l w'
      → packet_loop output format config sel w (packet p now ∷ r)
        ≡ announced l (packet_loop output format config sel w' r)
  unfolding packet_loop after_packet
  stepped w w' p now r l h =
      ap (λ t. after_packet output format config t (λ v. packet_loop output format config sel v r))
        h

  -- Nothing was announced.
  quiet :
      (s s' : Session) (all : List Entry) (e : Received)
      → s ≡ announced [] s'
      → Done s' all e
      → Done s all e
  unfolding announced Done
  quiet s s' all e h d = subst (λ x. Done x all e) (sym h) d

  -- A file was announced that holds these packets, and the next one starts with `entry`.
  another :
      (s s' : Session) (f : SegmentInfo) (head entry : Entry) (seen es : List Entry) (e : Received)
      → s ≡ announced (f ∷ []) s'
      → Holds sel config f head seen
      → ends sel config head entry ≡ true
      → Done s' (entry ∷ es) e
      → Done s ((head ∷ seen) ++ (entry ∷ es)) e
  unfolding announced Done
  another s s' f head entry seen es e h holds over d =
      subst (λ x. Done x ((head ∷ seen) ++ (entry ∷ es)) e) (sym h)
        (next_file holds over d.0 refl, d.1, d.2)

  -- From an open file on.
  file_open :
      (es : List Entry) {w : SegmentWriter} {head : Entry} {seen : List Entry} (e : Received)
      (more : List Received)
      → IsEnd e
      → Writes w head seen
      → Done
          (packet_loop output format config sel (some w) (as_events es ++ (e ∷ more)))
          ((head ∷ seen) ++ chosen sel es)
          e
  unfolding as_events chosen
  file_open [] {seen = seen} e more end h = rw (append-nil seen) (closing e more end h)
  file_open ((p, now) ∷ es) {w} {head} {seen} e more end h = elim (Bool-cases (is_selected sel p)) [
    | inr other ↦ rw other (
        quiet _ _ _ e (stepped (some w) (some w) p now _ [] (take_skip (some w) p now other))
          (file_open es e more end h))
    | inl chose ↦ elim (Bool-cases (ends sel config head (p, now))) [
      | inl over ↦
          let (f, w', took, holds, writes) =
            take_turn p now h chose over (ends-split head p now over) in
          rw chose (
            another _ _ f head (p, now) seen _ e (stepped (some w) (some w') p now _ (f ∷ []) took)
              holds over (file_open es e more end writes))
      | inr same ↦
          let (w', took, writes) = take_keep p now h chose same in
          rw chose (
            quiet _ _ _ e (stepped (some w) (some w') p now _ [] took) (
              subst
                (λ l.
                  Done (packet_loop output format config sel (some w') (as_events es ++ (e ∷ more)))
                    l e)
                (append_assoc (head ∷ seen) ((p, now) ∷ []) (chosen sel es))
                (file_open es e more end writes)))
    ]
  ]

  no_file_open :
      (e : Received) (more : List Received)
      → IsEnd e
      → Done (packet_loop output format config sel none (e ∷ more)) [] e
  unfolding packet_loop close_writer IsEnd ending_of Done
  no_file_open eof more end = (no_file, refl, refl)
  no_file_open recv_failed more end = (no_file, refl, refl)
  no_file_open cancelled more end = (no_file, refl, refl)
  no_file_open (packet p now) more end = absurd end

  take_wait :
      (p : RawPacket) (now : ℕ)
      → is_selected sel p ≡ true
      → split_ok sel p ≡ false
      → take_packet output format config sel none p now ≡ going [] none
  unfolding take_packet with_writer
  take_wait p now chose no_split = rw (chose, no_split) refl

  from_none :
      (es : List Entry) (e : Received) (more : List Received)
      → IsEnd e
      → Done
          (packet_loop output format config sel none (as_events es ++ (e ∷ more)))
          (from_start sel (chosen sel es))
          e
  unfolding as_events chosen from_start
  from_none [] e more end = no_file_open e more end
  from_none ((p, now) ∷ es) e more end = elim (Bool-cases (is_selected sel p)) [
    | inr other ↦ rw other (
        quiet _ _ _ e (stepped none none p now _ [] (take_skip none p now other))
          (from_none es e more end))
    | inl chose ↦ elim (Bool-cases (split_ok sel p)) [
      | inl split ↦
          let (w', took, writes) = take_first p now chose split in
          rw (chose, split)
            (quiet _ _ _ e (stepped none (some w') p now _ [] took)
              (file_open es e more end writes))
      | inr wait ↦
          rw (chose, wait)
            (quiet _ _ _ e (stepped none none p now _ [] (take_wait p now chose wait))
              (from_none es e more end))
    ]
  ]

-- With an output that does not fail, the files of a session hold the packets of the recorded streams from
-- the first on at which a file may start: each packet once, in their order, with the times counted from
-- the first packet of its file. Every file starts where a file may start, and it ends at the first
-- such packet at which it is due to. When the session ends, all its files have been announced.
pub packet_loop_lem :
    (output : Output) (format : String → String → ℕ → String) (config : RecorderConfig)
    (sel : Selected) (es : List Entry) (e : Received) (more : List Received)
    → Reliable output
    → IsEnd e
    → let s = packet_loop output format config sel none (as_events es ++ (e ∷ more)) in
      Cut sel config s.sent (from_start sel (chosen sel es))
      × (s.unfinished ≡ none)
      × (s.ending ≡ ending_of e)
unfolding Done
packet_loop_lem output format config sel es e more good end =
    from_none output format config good sel es e more end
