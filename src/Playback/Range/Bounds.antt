-- ===== src/Playback/Range/Bounds.antt =====
-- playback.rs: a player gets the bytes that the answer names, and these are in the file.
use lite_nvr.Common.Text.{codes}
use lite_nvr.Common.{
  ℕ, true, Option, none, some, List, [], ◌∷◌, String, ◌≡◌, ◌⊎◌, inl, inr, ◌+◌, ◌-◌, ◌≤◌, ◌<◌, ◌||◌,
  length, take, drop, length-take, length-drop, refl, sym, ap, ◌∙◌, Bool-cases, ltb, leb, ◌==◌,
  nat_eq, arith, subst,
}
use lite_nvr.Storage.Segments.{RecordSegment, Table, get}
use lite_nvr.Playback.Range.{
  parse_range_header, after_prefix, split_range, range_of, suffix_range, open_range, closed_range,
  strip_prefix, split_dash, trim, parse_usize, read_file_range, Response, partial_content,
  not_satisfiable, play_segment, read_segment, ranged, play_row, partial,
}

-- A range that lies in a file of that length.
pub record Lies (content_len start end : ℕ) : Type 0 where
  pub ordered : start ≤ end
  pub inside : end < content_len

AllLie : ℕ → Option (ℕ × ℕ) → Type 0
AllLie n none = Unit {0}
AllLie n (some (start, end)) = Lies n start end

suffix-Lies : (n : ℕ) (o : Option ℕ) → 0 < n → AllLie n (suffix_range n o)
unfolding suffix_range AllLie
suffix-Lies n none h = tt
suffix-Lies n (some k) h = elim (Bool-cases (k == 0)) [
  | inl e ↦ rw e tt
  | inr e ↦ rw e (record { ordered = ground (arith, e); inside = omega arith })
]

open-Lies : (n : ℕ) (o : Option ℕ) → 0 < n → AllLie n (open_range n o)
unfolding open_range AllLie
open-Lies n none h = tt
open-Lies n (some start) h = elim (Bool-cases (leb n start)) [
  | inl e ↦ rw e tt
  | inr e ↦ rw e (record { ordered = ground (arith, e); inside = omega arith })
]

closed-Lies : (n : ℕ) (o p : Option ℕ) → 0 < n → AllLie n (closed_range n o p)
unfolding closed_range AllLie
closed-Lies n none p h = tt
closed-Lies n (some start) none h = tt
closed-Lies n (some start) (some end) h = elim (Bool-cases (ltb end start || leb n start)) [
  | inl e ↦ rw e tt
  | inr e ↦ rw e (record { ordered = ground (arith, e); inside = omega arith })
]

range_of-Lies : (n : ℕ) (s e : List ℕ) → 0 < n → AllLie n (range_of n s e)
unfolding range_of AllLie
range_of-Lies n [] [] h = tt
range_of-Lies n [] (b ∷ bs) h = suffix-Lies n (parse_usize (b ∷ bs)) h
range_of-Lies n (b ∷ bs) [] h = open-Lies n (parse_usize (b ∷ bs)) h
range_of-Lies n (b ∷ bs) (c ∷ cs) h = closed-Lies n (parse_usize (b ∷ bs)) (parse_usize (c ∷ cs)) h

parse-Lies : (range : List ℕ) (n : ℕ) → AllLie n (parse_range_header range n)
unfolding parse_range_header AllLie
parse-Lies range n = elim (Bool-cases (n == 0)) [
  | inl e ↦ rw e tt
  | inr e ↦ rw e (of_prefix (strip_prefix (codes "bytes=") range) (ground (arith, e)))
]
  where
    of_split : (o : Option (List ℕ × List ℕ)) → 0 < n → AllLie n (split_range n o)
    of_split none h = tt
    of_split (some (s, e)) h = range_of-Lies n (trim s) (trim e) h

    of_prefix : (o : Option (List ℕ)) → 0 < n → AllLie n (after_prefix n o)
    of_prefix none h = tt
    of_prefix (some bs) h = of_split (split_dash bs) h

-- What a player that asks for a range is told of a file of these bytes and that length.
Served : ℕ → List ℕ → Response → Type 0
Served n content r =
    (r ≡ not_satisfiable n)
    ⊎ ((start : ℕ) × (end : ℕ) × Lies n start end
        × (r
            ≡ partial_content (take (end - start + 1) (drop start content)) start end n
                (end - start + 1))
        × (length (take (end - start + 1) (drop start content)) ≡ end - start + 1))

partial-Served :
    (content : List ℕ) (n : ℕ) (o : Option (ℕ × ℕ))
    → n ≤ length content
    → AllLie n o
    → Served n content (partial content n o)
unfolding partial Served AllLie read_file_range
partial-Served content n none h l = inl refl
partial-Served content n (some (start, end)) h l =
    let fits : leb (start + (end - start + 1)) (length content) ≡ true =
      ground (arith, l.ordered, l.inside, h) in
    rw fits (
      inr (
        start,
        end,
        l,
        refl,
        length-take (end - start + 1) (drop start content)
            ∙ omega (arith, length-drop start content, l.ordered, l.inside, h),
      ))

-- Whatever the Range header says: a player that asks for a range of a segment whose file is not shorter than
-- it was found to be is told that the range cannot be had, or it gets exactly the bytes from `start`
-- to `end` that the answer names, which lie in the file, and as many as the answer's length says.
pub play_segment_lem :
    (metadata : String → Option ℕ) (contents : String → Option (List ℕ)) (range : List ℕ)
    (id : String) (t : Table) (s : RecordSegment) (n : ℕ) (content : List ℕ)
    → get id t ≡ some s
    → metadata s.file_path ≡ some n
    → contents s.file_path ≡ some content
    → n ≤ length content
    → let r = play_segment metadata contents (some range) id t in
      (r ≡ not_satisfiable n)
      ⊎ ((start : ℕ) × (end : ℕ) × Lies n start end
          × (r
              ≡ partial_content
                  (take (end - start + 1) (drop start content))
                  start
                  end
                  n
                  (end - start + 1))
          × (length (take (end - start + 1) (drop start content)) ≡ end - start + 1))
unfolding Served play_segment play_row read_segment ranged
play_segment_lem metadata contents range id t s n content found long held h =
    subst (Served n content)
      (sym (
        ap (play_row metadata contents (some range)) found
        ∙ (λ i. read_segment metadata contents (some range) (long i) (held i))))
      (partial-Served content n (parse_range_header range n) h (parse-Lies range n))
