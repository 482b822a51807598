-- ===== src/Bus/Choice/Plans.antt =====
-- bus.rs: when a stream is copied, and what a muxer's plan holds.
use mathlib.Core.Option.{some-injective}
use lite_nvr.Bus.Choice.{
  codec_id_from_name, is_target, differs, encode_needed_params, encode_needed,
}
use lite_nvr.Common.Text.{folds_to, same_codes, codes, ascii_lower}
use lite_nvr.Common.{
  List, String, [], ◌∷◌, map, subst, ◌&&◌, Bool-cases, inl, inr, ◌||◌, Bool, Option, ◌-◌, ℕ, refl,
  none, some, true, false, nat_eq, string_eq, if◌then◌else◌, ◌==◌, ◌≡◌, ◌∙◌, ap, sym, arith, ◌||◌,
  ◌↔◌, ◌||◌,
}
use lite_nvr.Bus.Types.{
  is_video, EncodeConfig, AvStream, codec_tag, ◌is◌, CodecId, h264, hevc, aac, opus, mjpeg, vp8,
  vp9, av1, mp3, rawvideo, wrapped_avframe, other_codec,
}

codec_of : ℕ → CodecId
codec_of n =
    if n == 0
    then h264
    else if n == 1
    then hevc
    else if n == 2
    then aac
    else if n == 3
    then opus
    else if n == 4
    then mjpeg
    else if n == 5
    then vp8
    else if n == 6
    then vp9
    else if n == 7
    then av1
    else if n == 8
    then mp3
    else if n == 9
    then rawvideo
    else if n == 10
    then wrapped_avframe
    else other_codec (n - 11)

codec_of-codec_tag : (c : CodecId) → codec_of (codec_tag c) ≡ c
unfolding codec_of
codec_of-codec_tag h264 = refl
codec_of-codec_tag hevc = refl
codec_of-codec_tag aac = refl
codec_of-codec_tag opus = refl
codec_of-codec_tag mjpeg = refl
codec_of-codec_tag vp8 = refl
codec_of-codec_tag vp9 = refl
codec_of-codec_tag av1 = refl
codec_of-codec_tag mp3 = refl
codec_of-codec_tag rawvideo = refl
codec_of-codec_tag wrapped_avframe = refl
codec_of-codec_tag (other_codec n) = ground arith

is_iff : (a b : CodecId) → ((a is b) ≡ true) ↔ (a ≡ b)
is_iff a b = (
  λ h.
      sym (codec_of-codec_tag a)
      ∙ (ap codec_of ((nat_eq.hits_iff (codec_tag a) (codec_tag b)).0 h) ∙ codec_of-codec_tag b),
  λ e. (nat_eq.hits_iff (codec_tag a) (codec_tag b)).1 (ap codec_tag e),
)

unfoldable pub Agrees : Option ℕ → ℕ → Type 0
Agrees none n = Unit {0}
Agrees (some m) n = m ≡ n

differs_iff : (o : Option ℕ) (n : ℕ) → (differs o n ≡ false) ↔ Agrees o n
unfolding Agrees
differs_iff none n = (λ h. tt, λ h. refl)
differs_iff (some m) n = (λ h. ground arith, λ h. ground arith)

-- The names that FFmpeg and its encoder libraries have for a codec.
abbrev pub names_of : CodecId → List String
names_of h264 = "h264" ∷ "avc" ∷ "libx264" ∷ []
names_of hevc = "hevc" ∷ "h265" ∷ "libx265" ∷ []
names_of aac = "aac" ∷ []
names_of opus = "opus" ∷ "libopus" ∷ []
names_of mjpeg = "mjpeg" ∷ []
names_of vp8 = "vp8" ∷ "libvpx" ∷ []
names_of vp9 = "vp9" ∷ "libvpx-vp9" ∷ []
names_of av1 = "av1" ∷ []
names_of mp3 = "mp3" ∷ "libmp3lame" ∷ []
names_of rawvideo = "rawvideo" ∷ []
names_of wrapped_avframe = []
names_of (other_codec n) = []

-- Whether a name is in the list when its case is folded.
abbrev pub is_named : List String → String → Bool
is_named [] name = false
is_named (n ∷ []) name = folds_to name n
is_named (n ∷ m ∷ ns) name = folds_to name n || is_named (m ∷ ns) name

-- A name of the stream's codec, and of the stream's size or its sampling what the configuration sets.
unfoldable pub Fits : AvStream → EncodeConfig → Type 0
Fits s e =
    (is_named (names_of s.codec) e.codec ≡ true)
    × (if is_video s
        then Agrees e.width s.width × Agrees e.height s.height
        else Agrees e.sample_rate s.sample_rate × Agrees e.channels s.channels)

-- What the first test that succeeds gives.
first_hit :
    (name : String) (b : Bool) (a c : CodecId) (rest : Option CodecId)
    → (b ≡ true → is_named (names_of a) name ≡ true)
    → (rest ≡ some c → is_named (names_of c) name ≡ true)
    → (if b then some a else rest) ≡ some c
    → is_named (names_of c) name ≡ true
first_hit name true a c rest here later h =
    subst (λ x. is_named (names_of x) name ≡ true) (some-injective a c h) (here refl)
first_hit name false a c rest here later h = later h

code-is_named :
    (name : String) (c : CodecId)
    → codec_id_from_name name ≡ some c
    → is_named (names_of c) name ≡ true
unfolding codec_id_from_name
code-is_named name c =
    first_hit name _ h264 c _ (λ h. h)
      (first_hit name _ hevc c _ (λ h. h)
        (first_hit name _ aac c _ (λ h. h)
          (first_hit name _ opus c _ (λ h. h)
            (first_hit name _ mjpeg c _ (λ h. h)
              (first_hit name _ vp8 c _ (λ h. h)
                (first_hit name _ vp9 c _ (λ h. h)
                  (first_hit name _ av1 c _ (λ h. h)
                    (first_hit name _ mp3 c _ (λ h. h)
                      (first_hit name _ rawvideo c _ (λ h. h) (λ h. absurd (nothing h)))))))))))
  where
    nothing : none ≡ some c → ⊥
    nothing h = cc

-- The code points of a name tell its codec.
code_of : List ℕ → Option CodecId
code_of l =
    let named : String → Bool = λ n. same_codes l (codes n) in
    if named "h264" || (named "avc" || named "libx264")
    then some h264
    else if named "hevc" || (named "h265" || named "libx265")
    then some hevc
    else if named "aac"
    then some aac
    else if named "opus" || named "libopus"
    then some opus
    else if named "mjpeg"
    then some mjpeg
    else if named "vp8" || named "libvpx"
    then some vp8
    else if named "vp9" || named "libvpx-vp9"
    then some vp9
    else if named "av1"
    then some av1
    else if named "mp3" || named "libmp3lame"
    then some mp3
    else if named "rawvideo"
    then some rawvideo
    else none

code_of-folded : (name : String) → codec_id_from_name name ≡ code_of (map ascii_lower (codes name))
unfolding codec_id_from_name folds_to code_of
code_of-folded name = refl

same_codes-eq : (a b : List ℕ) → same_codes a b ≡ true → a ≡ b
same_codes-eq [] [] h = refl
same_codes-eq (x ∷ a) (y ∷ b) h =
    let both = and_true (x == y) (same_codes a b) h in
    ap (λ z. z ∷ a) ((nat_eq.hits_iff x y).0 both.0) ∙ ap (λ l. y ∷ l) (same_codes-eq a b both.1)
  where
    and_true : (p q : Bool) → (p && q) ≡ true → (p ≡ true) × (q ≡ true)
    and_true p q h = ground arith
same_codes-eq [] (y ∷ b) h = absurd (ground (arith, h))
same_codes-eq (x ∷ a) [] h = absurd (ground (arith, h))

-- Every name of a list has the code.
AllCode : Option CodecId → List String → Type 0
AllCode c [] = Unit {0}
AllCode c (n ∷ ns) = (code_of (codes n) ≡ c) × AllCode c ns

names_of-AllCode : (c : CodecId) → AllCode (some c) (names_of c)
unfolding AllCode code_of
names_of-AllCode h264 = (refl, (refl, (refl, tt)))
names_of-AllCode hevc = (refl, (refl, (refl, tt)))
names_of-AllCode aac = (refl, tt)
names_of-AllCode opus = (refl, (refl, tt))
names_of-AllCode mjpeg = (refl, tt)
names_of-AllCode vp8 = (refl, (refl, tt))
names_of-AllCode vp9 = (refl, (refl, tt))
names_of-AllCode av1 = (refl, tt)
names_of-AllCode mp3 = (refl, (refl, tt))
names_of-AllCode rawvideo = (refl, tt)
names_of-AllCode wrapped_avframe = tt
names_of-AllCode (other_codec n) = tt

named_code :
    (name n : String) (c : Option CodecId)
    → folds_to name n ≡ true
    → code_of (codes n) ≡ c
    → codec_id_from_name name ≡ c
unfolding folds_to
named_code name n c h e =
    code_of-folded name
    ∙ (ap code_of (same_codes-eq (map ascii_lower (codes name)) (codes n) h) ∙ e)

is_named-code :
    (name : String) (c : Option CodecId) (ns : List String)
    → AllCode c ns
    → is_named ns name ≡ true
    → codec_id_from_name name ≡ c
unfolding AllCode
is_named-code name c [] all h = absurd (ground (arith, h))
is_named-code name c (n ∷ []) all h = named_code name n c h all.0
is_named-code name c (n ∷ m ∷ ns) all h = elim (Bool-cases (folds_to name n)) [
  | inl e ↦ named_code name n c e all.0
  | inr e ↦ is_named-code name c (m ∷ ns) all.1 (ap (λ b. b || is_named (m ∷ ns) name) (sym e) ∙ h)
]

code_iff :
    (name : String) (c : CodecId)
    → (codec_id_from_name name ≡ some c) ↔ (is_named (names_of c) name ≡ true)
code_iff name c =
    (code-is_named name c, is_named-code name (some c) (names_of c) (names_of-AllCode c))

is_target_iff : (o : Option CodecId) (c : CodecId) → (is_target o c ≡ true) ↔ (o ≡ some c)
is_target_iff none c = (λ h. absurd (no_bool h), λ h. absurd (no_codec h))
  where
    no_bool : false ≡ true → ⊥
    no_bool h = cc

    no_codec : none ≡ some c → ⊥
    no_codec h = cc
is_target_iff (some a) c =
    (λ h. ap some ((is_iff a c).0 h), λ h. (is_iff a c).1 (some-injective a c h))

or_false_iff : (a b : Bool) → ((a || b) ≡ false) ↔ ((a ≡ false) × (b ≡ false))
or_false_iff false b = (λ h. (refl, h), λ h. h.1)
or_false_iff true b = (λ h. absurd (no_bool h), λ h. h.0)
  where
    no_bool : true ≡ false → ⊥
    no_bool h = cc

both_agree :
    (o p : Option ℕ) (n k : ℕ) → ((differs o n || differs p k) ≡ false) ↔ (Agrees o n × Agrees p k)
both_agree o p n k = (
  λ h.
      let both = (or_false_iff (differs o n) (differs p k)).0 h in
      ((differs_iff o n).0 both.0, (differs_iff p k).0 both.1),
  λ h.
      (or_false_iff (differs o n) (differs p k)).1
        ((differs_iff o n).1 h.0, (differs_iff p k).1 h.1),
)

-- The test for transcoding answers no exactly when the configuration's codec is one of the names of
-- the stream's codec, in upper or lower case, and each of the width and height (of a video) or the
-- sample rate and channels (of another stream) is not set or is the stream's. The bitrate, the
-- preset and the pixel format play no part.
pub encode_needed_iff : (s : AvStream) (e : EncodeConfig) → (encode_needed s e ≡ false) ↔ Fits s e
unfolding encode_needed encode_needed_params Fits
encode_needed_iff s e =
    let target = is_target_iff (codec_id_from_name e.codec) s.codec in
    let named = code_iff e.codec s.codec in
    at (is_video s) (is_target (codec_id_from_name e.codec) s.codec)
      (λ h. named.0 (target.0 h), λ h. target.1 (named.1 h))
  where
    no_bool : true ≡ false → ⊥
    no_bool h = cc

    wrong : false ≡ true → ⊥
    wrong h = cc

    at :
        (v t : Bool)
        → ((t ≡ true) ↔ (is_named (names_of s.codec) e.codec ≡ true))
        → ((if t
              then if v
                then differs e.width s.width || differs e.height s.height
                else differs e.sample_rate s.sample_rate || differs e.channels s.channels
              else true)
            ≡ false)
          ↔ ((is_named (names_of s.codec) e.codec ≡ true)
              × (if v
                  then Agrees e.width s.width × Agrees e.height s.height
                  else Agrees e.sample_rate s.sample_rate × Agrees e.channels s.channels))
    at v false i = (λ h. absurd (no_bool h), λ h. absurd (wrong (i.1 h.0)))
    at true true i =
        let agree = both_agree e.width e.height s.width s.height in
        (λ h. (i.0 refl, agree.0 h), λ h. agree.1 h.1)
    at false true i =
        let agree = both_agree e.sample_rate e.channels s.sample_rate s.channels in
        (λ h. (i.0 refl, agree.0 h), λ h. agree.1 h.1)
