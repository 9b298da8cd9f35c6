-- ===== src/Readers/DecordReader/Bounds.antt =====
-- `_read` on key frames, and that no frame is asked for that the video does not have.
use eva.Expression.Ranges.Union.{within_any}
use eva.Expression.Types.{Expr}
use eva.Prelude.{
  ℕ, zero, suc, ◌+◌, ◌-◌, ◌≤◌, ◌<◌, String, ◌≡◌, refl, sym, ap, subst, ◌∙◌, inl, inr, Bool, true,
  Option, List, [], ◌∷◌, arith, Bool-cases, filter, every_from,
}
use eva.Prelude.Int.{ℤ, pos, negsuc, ◌-ℤ◌}
use eva.Prelude.Result.{ok, ok-injective}
use eva.Readers.DecordReader.Defs.{DecordReader, iframes, is_type, rate_or_one, init, read}
use eva.Readers.DecordReader.Frames.{frames}
use eva.Readers.DecordReader.KeyFrames.{Ascending, read_key_frames_lem, AllFrames}
use eva.Readers.DecordReader.Selected.{
  holds_at_opt, is_readable, RangesOf, range_list_lem, is_selected, rate_or_one_pos, init-eq-ok,
  read-filter,
}

AllFrames-filter :
    (num_frames : ℕ) (p : ℤ → Bool) (xs : List ℤ)
    → AllFrames num_frames xs
    → AllFrames num_frames (filter p xs)
AllFrames-filter num_frames p [] h = tt
AllFrames-filter num_frames p (x ∷ xs) h = elim (Bool-cases (p x)) [
  | inl e ↦ rw e (h.0, AllFrames-filter num_frames p xs h.1)
  | inr e ↦ rw e (AllFrames-filter num_frames p xs h.1)
]

AllFrames-frames : (num_frames lo n : ℕ) → lo + n ≤ num_frames → AllFrames num_frames (frames lo n)
unfolding frames
AllFrames-frames num_frames lo zero h = tt
AllFrames-frames num_frames lo (suc n) h =
    (ground arith, AllFrames-frames num_frames (lo + 1) n (omega arith))

AllFrames-every_from :
    (num_frames skip rate : ℕ) (xs : List ℤ)
    → AllFrames num_frames xs
    → AllFrames num_frames (every_from skip rate xs)
unfolding every_from
AllFrames-every_from num_frames skip rate [] h = tt
AllFrames-every_from num_frames zero rate (x ∷ xs) h =
    (h.0, AllFrames-every_from num_frames (rate - 1) rate xs h.1)
AllFrames-every_from num_frames (suc skip) rate (x ∷ xs) h =
    AllFrames-every_from num_frames skip rate xs h.1

filter_cong-AllFrames :
    (num_frames : ℕ) (p q : ℤ → Bool) (xs : List ℤ)
    → ((i : ℕ) → i < num_frames → p (pos i) ≡ q (pos i))
    → AllFrames num_frames xs
    → filter p xs ≡ filter q xs
filter_cong-AllFrames num_frames p q [] h k = refl
filter_cong-AllFrames num_frames p q (pos i ∷ xs) h k =
    rw (h i (ground (arith, k.0)), filter_cong-AllFrames num_frames p q xs h k.1) refl
filter_cong-AllFrames num_frames p q (negsuc i ∷ xs) h k = absurd (ground (arith, k.0))

-- A reader that `__init__` makes and that samples key frames reads, of every rate-th key frame, those
-- whose number satisfies the predicate, if the key frames ascend and are frames of the video. The
-- reader has no predicate, or one made by AND and OR from comparisons of a column with integers, each
-- of which is the number of a frame of the video.
pub read-filter_key_frames :
    (predicate : Option Expr) (rate : Option ℕ) (type : Option String) (audio : Bool)
    (reader : DecordReader) (num_frames : ℕ) (key_frames : List ℤ)
    → init predicate rate type audio ≡ ok reader
    → is_type type iframes ≡ true
    → is_readable predicate num_frames ≡ true
    → Ascending key_frames
    → AllFrames num_frames key_frames
    → read reader num_frames key_frames
      ≡ ok (filter (holds_at_opt predicate) (every_from 0 (rate_or_one rate) key_frames))
unfolding read
read-filter_key_frames predicate rate type audio reader num_frames key_frames made sampled readable
      ascending frames_of_it =
    let found : RangesOf predicate num_frames = range_list_lem predicate num_frames readable in
    rw (init-eq-ok predicate rate type audio reader made, found.found, sampled)
      (ap ok (
        read_key_frames_lem (rate_or_one rate) key_frames (rate_or_one_pos rate) ascending
          (pos num_frames -ℤ pos 1) found.ranges 0 found.bounded found.separated
        ∙ filter_cong-AllFrames num_frames (λ z. within_any z found.ranges) (holds_at_opt predicate)
            (every_from 0 (rate_or_one rate) key_frames) found.exact
            (AllFrames-every_from num_frames 0 (rate_or_one rate) key_frames frames_of_it)))

-- Whatever is sampled, every number that is passed to `_get_frame` is that of a frame of the video,
-- provided that the reader has no predicate, or one made by AND and OR from comparisons of a column
-- with integers, each the number of such a frame, and that the key frames ascend and are frames of the
-- video.
pub read-AllFrames :
    (predicate : Option Expr) (rate : Option ℕ) (type : Option String) (audio : Bool)
    (reader : DecordReader) (num_frames : ℕ) (key_frames ids : List ℤ)
    → init predicate rate type audio ≡ ok reader
    → is_readable predicate num_frames ≡ true
    → Ascending key_frames
    → AllFrames num_frames key_frames
    → read reader num_frames key_frames ≡ ok ids
    → AllFrames num_frames ids
read-AllFrames predicate rate type audio reader num_frames key_frames ids made readable ascending
      frames_of_it result =
    elim (Bool-cases (is_type type iframes)) [
      | inl e ↦
          subst (AllFrames num_frames)
            (ok-injective (
              sym (
                read-filter_key_frames predicate rate type audio reader num_frames key_frames made e
                  readable ascending frames_of_it)
              ∙ result))
            (AllFrames-filter num_frames (holds_at_opt predicate)
              (every_from 0 (rate_or_one rate) key_frames)
              (AllFrames-every_from num_frames 0 (rate_or_one rate) key_frames frames_of_it))
      | inr e ↦
          subst (AllFrames num_frames)
            (ok-injective (
              sym
                (read-filter predicate rate type audio reader num_frames key_frames made e readable)
              ∙ result))
            (AllFrames-filter num_frames (is_selected predicate (rate_or_one rate) audio)
              (frames 0 num_frames) (AllFrames-frames num_frames 0 num_frames (omega arith)))
    ]
