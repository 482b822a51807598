-- ===== src/Bus/Forward/Merge.antt =====
-- bus.rs: the muxer's loop over its merged sources (`select_all`).
use lite_nvr.Common.{
  ◌≤◌, leb, Bool, ◌<◌, length, ℕ, List, ap, refl, subst, sym, ◌∙◌, true, false, [], ◌∷◌, ◌++◌,
  nat_eq, if◌then◌else◌, ◌==◌, ◌≡◌, zero, suc, arith, ◌⊎◌, inl, inr, ◌+◌,
}
use lite_nvr.Bus.Forward.{
  MuxWrite, mux_write, wrote_packet, logged_error, Written, writing, Packet, MuxSignal, mux_loop,
  packet, eof,
}
use lite_nvr.Bus.Forward.Loops.{wrote}

abbrev pub Tagged : Type 0
Tagged = ℕ × Packet

-- The signals of the sources in some order, each source giving its packets and then its end.
pub data Interleaves : List (List Tagged) → List MuxSignal → Type 0 where
  all_ended : Interleaves [] []
  gives :
      (before after : List (List Tagged)) (x : Tagged) (xs : List Tagged) (sigs : List MuxSignal)
      → Interleaves (before ++ (xs ∷ after)) sigs
      → Interleaves (before ++ ((x ∷ xs) ∷ after)) (packet x.0 x.1 ∷ sigs)
  ends :
      (before after : List (List Tagged)) (sigs : List MuxSignal)
      → Interleaves (before ++ after) sigs
      → Interleaves (before ++ ([] ∷ after)) (eof ∷ sigs)

-- The calls of `write_packet` for the signals, from the n-th call on.
unfoldable pub written_of : (ℕ → Bool) → ℕ → List MuxSignal → List MuxWrite
written_of ok n [] = []
written_of ok n (packet i p ∷ sigs) = mux_write (ok n) i p ∷ written_of ok (n + 1) sigs
written_of ok n (eof ∷ sigs) = written_of ok n sigs

-- What the calls were given.
abbrev pub given_to : MuxWrite → Tagged
given_to (wrote_packet i p) = (i, p)
given_to (logged_error i p) = (i, p)

abbrev pub all_given : List MuxWrite → List Tagged
all_given [] = []
all_given (w ∷ ws) = given_to w ∷ all_given ws

-- Each call ends as FFmpeg answered it.
unfoldable pub Answered : (ℕ → Bool) → ℕ → List MuxWrite → Type 0
Answered ok n [] = Unit {0}
Answered ok n (w ∷ ws) =
    (w ≡ mux_write (ok n) (given_to w).0 (given_to w).1) × Answered ok (n + 1) ws

given_to-mux_write : (b : Bool) (i : ℕ) (p : Packet) → given_to (mux_write b i p) ≡ (i, p)
given_to-mux_write true i p = refl
given_to-mux_write false i p = refl

written_of-Answered :
    (ok : ℕ → Bool) (n : ℕ) (sigs : List MuxSignal) → Answered ok n (written_of ok n sigs)
unfolding written_of Answered
written_of-Answered ok n [] = tt
written_of-Answered ok n (packet i p ∷ sigs) = (same (ok n), written_of-Answered ok (n + 1) sigs)
  where
    same :
        (b : Bool)
        → mux_write b i p
          ≡ mux_write b (given_to (mux_write b i p)).0 (given_to (mux_write b i p)).1
    same true = refl
    same false = refl
written_of-Answered ok n (eof ∷ sigs) = written_of-Answered ok n sigs

length-middle :
    (before after : List (List Tagged)) (s : List Tagged)
    → length (before ++ (s ∷ after)) ≡ length (before ++ after) + 1
length-middle [] after s = omega arith
length-middle (b ∷ bs) after s = omega (arith, length-middle bs after s)

length-same :
    (before after : List (List Tagged)) (s t : List Tagged)
    → length (before ++ (s ∷ after)) ≡ length (before ++ (t ∷ after))
length-same before after s t = length-middle before after s ∙ sym (length-middle before after t)

none_left :
    (ok : ℕ → Bool) (n : ℕ) (srcs : List (List Tagged)) (sigs : List MuxSignal)
    → Interleaves srcs sigs
    → length srcs ≡ 0
    → written_of ok n sigs ≡ []
unfolding written_of
none_left ok n _ _ all_ended h = refl
none_left ok n _ _ (gives before after x xs sigs i) h =
    absurd (omega (arith, length-middle before after (x ∷ xs), h))
none_left ok n _ _ (ends before after sigs i) h =
    absurd (omega (arith, length-middle before after [], h))

zero_or_more : (n : ℕ) → (n ≡ 0) ⊎ (0 < n)
zero_or_more zero = inl refl
zero_or_more (suc n) = inr (omega arith)

leb-le : (a b : ℕ) → a ≤ b → leb a b ≡ true
leb-le a b h = ground arith

leb-gt : (a b : ℕ) → b < a → leb a b ≡ false
leb-gt a b h = ground arith

mux_loop-wrote :
    (ok : ℕ → Bool) (closes : Bool) (n : ℕ) (srcs : List (List Tagged)) (sigs : List MuxSignal)
    → Interleaves srcs sigs
    → (eofs total : ℕ) → eofs + length srcs ≡ total
    → 0 < length srcs
    → mux_loop ok closes total eofs n sigs ≡ wrote (written_of ok n sigs)
unfolding mux_loop written_of
mux_loop-wrote ok closes n _ _ all_ended eofs total h some_left = absurd (omega (arith, some_left))
mux_loop-wrote ok closes n _ _ (gives before after x xs sigs i) eofs total h some_left =
    ap (writing (mux_write (ok n) x.0 x.1)) (
      mux_loop-wrote ok closes (n + 1) _ sigs i eofs total
        (omega (arith, h, length-same before after (x ∷ xs) xs))
        (omega (arith, length-middle before after xs)))
mux_loop-wrote ok closes n _ _ (ends before after sigs i) eofs total h some_left =
    let size = length-middle before after [] in
    elim (zero_or_more (length (before ++ after))) [
      | inl nothing ↦
          rw (leb-le total (eofs + 1) (omega (arith, h, size, nothing)))
            (ap (λ l. wrote l) (sym (none_left ok n _ sigs i nothing)))
      | inr more ↦
          rw (leb-gt total (eofs + 1) (omega (arith, h, size, more)))
            (mux_loop-wrote ok closes n _ sigs i (eofs + 1) total (omega (arith, h, size)) more)
    ]

unfoldable pub with_index : ℕ → List Tagged → List Tagged
with_index i [] = []
with_index i (x ∷ xs) = let rest = with_index i xs in if x.0 == i then x ∷ rest else rest

unfoldable pub joined : ℕ → List (List Tagged) → List Tagged
joined i [] = []
joined i (s ∷ ss) = with_index i s ++ joined i ss

-- One source at most has packets of the index.
unfoldable pub Alone : ℕ → List (List Tagged) → Type 0
Alone i [] = Unit {0}
Alone i (s ∷ ss) = ((with_index i s ≡ []) × Alone i ss) ⊎ (joined i ss ≡ [])

abbrev seen : ℕ → Tagged → List Tagged → List Tagged
seen i x l = if x.0 == i then x ∷ l else l

seen-append : (i : ℕ) (x : Tagged) (xs ys : List Tagged) → seen i x xs ++ ys ≡ seen i x (xs ++ ys)
seen-append i x xs ys = at (x.0 == i)
  where
    at : (b : Bool) → (if b then x ∷ xs else xs) ++ ys ≡ (if b then x ∷ (xs ++ ys) else xs ++ ys)
    at true = refl
    at false = refl

cons_not_nil : {A : Type 0} (x : A) (xs : List A) → x ∷ xs ≡ [] → ⊥
cons_not_nil x xs h = cc

seen_nothing :
    (i : ℕ) (x : Tagged) (l : List Tagged) → seen i x l ≡ [] → ((x.0 == i) ≡ false) × (l ≡ [])
seen_nothing i x l h = at (x.0 == i) h
  where
    at : (b : Bool) → (if b then x ∷ l else l) ≡ [] → (b ≡ false) × (l ≡ [])
    at true h = absurd (cons_not_nil x l h)
    at false h = (refl, h)

append_nothing : {A : Type 0} (xs ys : List A) → xs ++ ys ≡ [] → (xs ≡ []) × (ys ≡ [])
append_nothing [] ys h = (refl, h)
append_nothing (x ∷ xs) ys h = absurd (cons_not_nil x (xs ++ ys) h)

-- A source that has given a packet.
joined-gives :
    (i : ℕ) (before after : List (List Tagged)) (x : Tagged) (xs : List Tagged)
    → Alone i (before ++ ((x ∷ xs) ∷ after))
    → Alone i (before ++ (xs ∷ after))
      × (joined i (before ++ ((x ∷ xs) ∷ after)) ≡ seen i x (joined i (before ++ (xs ∷ after))))
unfolding joined with_index Alone
joined-gives i [] after x xs (inl (e, a)) = (
  inl ((seen_nothing i x (with_index i xs) e).1, a),
  seen-append i x (with_index i xs) (joined i after),
)
joined-gives i [] after x xs (inr j) = (inr j, seen-append i x (with_index i xs) (joined i after))
joined-gives i (s ∷ before) after x xs (inl (e, a)) =
    let rest = joined-gives i before after x xs a in
    (
      inl (e, rest.0),
      ap (λ l. l ++ joined i (before ++ ((x ∷ xs) ∷ after))) e
          ∙ (rest.1 ∙ ap (λ l. seen i x (l ++ joined i (before ++ (xs ∷ after)))) (sym e)),
    )
joined-gives i (s ∷ before) after x xs (inr j) =
    let rest = nothing before j in
    (
      inr (rest.1),
      ap (λ l. with_index i s ++ l) j ∙ rw rest.0 (ap (λ l. with_index i s ++ l) (sym rest.1)),
    )
  where
    nothing :
        (before : List (List Tagged))
        → joined i (before ++ ((x ∷ xs) ∷ after)) ≡ []
        → ((x.0 == i) ≡ false) × (joined i (before ++ (xs ∷ after)) ≡ [])
    nothing [] h = seen_nothing i x _ (sym (seen-append i x (with_index i xs) (joined i after)) ∙ h)
    nothing (b ∷ bs) h =
        let both = append_nothing (with_index i b) _ h in
        let rest = nothing bs both.1 in
        (rest.0, ap (λ l. l ++ joined i (bs ++ (xs ∷ after))) both.0 ∙ rest.1)

none-Alone : (i : ℕ) (ss : List (List Tagged)) → joined i ss ≡ [] → Alone i ss
unfolding joined Alone
none-Alone i [] h = tt
none-Alone i (s ∷ ss) h = inr (append_nothing (with_index i s) (joined i ss) h).1

joined-ends :
    (i : ℕ) (before after : List (List Tagged))
    → joined i (before ++ ([] ∷ after)) ≡ joined i (before ++ after)
unfolding joined with_index
joined-ends i [] after = refl
joined-ends i (s ∷ before) after = ap (λ l. with_index i s ++ l) (joined-ends i before after)

ends-Alone :
    (i : ℕ) (before after : List (List Tagged))
    → Alone i (before ++ ([] ∷ after))
    → Alone i (before ++ after)
unfolding Alone
ends-Alone i [] after (inl (e, a)) = a
ends-Alone i [] after (inr j) = none-Alone i after j
ends-Alone i (s ∷ before) after (inl (e, a)) = inl (e, ends-Alone i before after a)
ends-Alone i (s ∷ before) after (inr j) = inr (sym (joined-ends i before after) ∙ j)

with_index-written_of :
    (ok : ℕ → Bool) (n i : ℕ) (srcs : List (List Tagged)) (sigs : List MuxSignal)
    → Interleaves srcs sigs
    → Alone i srcs
    → with_index i (all_given (written_of ok n sigs)) ≡ joined i srcs
unfolding with_index written_of joined
with_index-written_of ok n i _ _ all_ended a = refl
with_index-written_of ok n i _ _ (gives before after x xs sigs s) a =
    let rest = joined-gives i before after x xs a in
    ap (λ y. seen i y (with_index i (all_given (written_of ok (n + 1) sigs))))
      (given_to-mux_write (ok n) x.0 x.1)
    ∙ (ap (seen i x) (with_index-written_of ok (n + 1) i _ sigs s rest.0) ∙ sym rest.1)
with_index-written_of ok n i _ _ (ends before after sigs s) a =
    with_index-written_of ok n i _ sigs s (ends-Alone i before after a)
    ∙ sym (joined-ends i before after)

-- In whatever order the sources of a muxer give their packets and ends, and whichever calls of
-- `write_packet` fail, the muxer's loop leaves; and of each stream that has one source it has then
-- called `write_packet` with the packets that this source gave, all of them and in their order, a
-- failing one among them being logged. A packet that a receiver has lost by lagging is none that its
-- source gives.
pub mux_loop-Interleaves :
    (ok : ℕ → Bool) (closes : Bool) (s : List Tagged) (srcs : List (List Tagged))
    (sigs : List MuxSignal) (i : ℕ)
    → Interleaves (s ∷ srcs) sigs
    → Alone i (s ∷ srcs)
    → let done = mux_loop ok closes (length (s ∷ srcs)) 0 0 sigs in
      (done.left ≡ true)
      × (with_index i (all_given done.items) ≡ joined i (s ∷ srcs))
      × Answered ok 0 done.items
mux_loop-Interleaves ok closes s srcs sigs i order alone =
    let all =
      mux_loop-wrote ok closes 0 (s ∷ srcs) sigs order 0 (length (s ∷ srcs)) (omega arith)
        (omega arith) in
    (
      ap (λ r. r.left) all,
      ap (λ r. with_index i (all_given r.items)) all
          ∙ with_index-written_of ok 0 i (s ∷ srcs) sigs order alone,
      subst (λ (r : Written MuxWrite). Answered ok 0 r.items) (sym all)
          (written_of-Answered ok 0 sigs),
    )
