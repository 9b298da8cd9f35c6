-- ===== src/Readers/DecordReader/Selected.antt =====
-- The frames that a predicate and a sampling rate select are those that `_read` reads.
use eva.Expression.Ranges.Comparisons.{holds_at}
use eva.Expression.Ranges.Extract.{extract_range_list_from_predicate}
use eva.Expression.Ranges.Ordered.{extract_range_list_from_predicate-Separated}
use eva.Expression.Ranges.Separated.{Separated}
use eva.Expression.Ranges.Sound.{within_any-extract_range_list_from_predicate}
use eva.Expression.Ranges.Total.{has_ranges, is_ok-extract_range_list_from_predicate}
use eva.Expression.Ranges.Union.{Range, range, within_any}
use eva.Expression.Types.{Expr}
use eva.Prelude.{
  ℕ, ◌<◌, String, ◌≡◌, refl, sym, ap, ◌∙◌, inl, inr, Bool, true, false, ◌&&◌, ◌||◌, Option, none,
  some, List, [], ◌∷◌, arith, ◌==◌, Bool-cases, &&-eq-true, filter,
}
use eva.Prelude.Int.{ℤ, pos, negsuc, ◌-ℤ◌, -ℤ_parts}
use eva.Prelude.Result.{Result, err, ok, is_ok, ok-injective, >>=-eq-ok}
use eva.Readers.DecordReader.Defs.{
  DecordReader, iframes, is_type, rate_or_one, initialize_reader, init, align, read_all,
  read_sampled, range_list, read,
}
use eva.Readers.DecordReader.Frames.{frames, filter-frames_cong, is_multiple}
use eva.Readers.DecordReader.InBounds.{
  AllInBounds, constants_within, AllInBounds-extract_range_list_from_predicate,
}
use eva.Readers.DecordReader.Reads.{StartsFrom, is_read, read_sampled-filter}
use native.Mathlib.Nat.{mod-one}

abbrev pub holds_at_opt : Option Expr → ℤ → Bool
holds_at_opt none i = true
holds_at_opt (some predicate) i = holds_at i predicate

-- the predicate has ranges, and compares only with numbers of frames of the video
abbrev pub is_readable : Option Expr → ℕ → Bool
is_readable none num_frames = true
is_readable (some predicate) num_frames =
    has_ranges predicate && constants_within (pos 0) (pos num_frames -ℤ pos 1) predicate

-- what the ranges of a predicate are for
pub record RangesOf (predicate : Option Expr) (num_frames : ℕ) : Type 0 where
  pub ranges : List Range
  pub found : range_list predicate num_frames ≡ ok ranges
  pub bounded : AllInBounds (pos 0) (pos num_frames -ℤ pos 1) ranges
  pub separated : Separated ranges
  pub exact : (i : ℕ) → i < num_frames → within_any (pos i) ranges ≡ holds_at_opt predicate (pos i)

pub range_list_lem :
    (predicate : Option Expr) (num_frames : ℕ)
    → is_readable predicate num_frames ≡ true
    → RangesOf predicate num_frames
unfolding range_list within_any
range_list_lem none num_frames h = record {
  ranges = range (pos 0) (pos num_frames -ℤ pos 1) ∷ [];
  found = refl;
  bounded = (ground (arith, -ℤ_parts (pos num_frames) (pos 1), -ℤ_parts (pos 0) (pos 1)), tt);
  separated = tt;
  exact = λ i k. ground (arith, -ℤ_parts (pos num_frames) (pos 1));
}
range_list_lem (some predicate) num_frames h =
    let upper : ℤ = pos num_frames -ℤ pos 1 in
    let (rs, found) =
      result (extract_range_list_from_predicate predicate (pos 0) upper)
        (is_ok-extract_range_list_from_predicate predicate (pos 0) upper ∙ (&&-eq-true _ _ h).0) in
    record {
      ranges = rs;
      found = found;
      bounded =
          AllInBounds-extract_range_list_from_predicate (pos 0) upper predicate rs
            (&&-eq-true _ _ h).1 found;
      separated = extract_range_list_from_predicate-Separated predicate (pos 0) upper rs found;
      exact = λ i k.
          within_any-extract_range_list_from_predicate predicate (pos 0) upper (pos i) rs found
            (omega arith) (ground (arith, -ℤ_parts (pos num_frames) (pos 1)));
    }
  where
    result : (m : Result (List Range)) → is_ok m ≡ true → (rs : List Range) × (m ≡ ok rs)
    result (ok rs) h = (rs, refl)
    result (err e) h = absurd (cc)

abbrev pub every_is_multiple : (i : ℤ) → is_multiple 1 i ≡ true
every_is_multiple (pos m) = rw (mod-one m) refl
every_is_multiple (negsuc m) = rw (mod-one m) refl

-- One frame after the other is the sampling rate 1.
read_all_lem : (rs : List Range) → read_all rs ≡ read_sampled 1 rs
unfolding read_all read_sampled align
read_all_lem [] = refl
read_all_lem (r ∷ rs) =
    let at_once : align 1 r.begin ≡ r.begin = rw (every_is_multiple r.begin) refl in
    rw (at_once, read_all_lem rs) refl

-- the frames that a reader keeps
abbrev pub is_selected : Option Expr → ℕ → Bool → ℤ → Bool
is_selected predicate rate audio i = holds_at_opt predicate i && (audio || is_multiple rate i)

pub rate_or_one_pos : (rate : Option ℕ) → 0 < rate_or_one rate
rate_or_one_pos none = omega arith
rate_or_one_pos (some n) = ground arith

-- the fields of a reader that is made
abbrev pub fields : Option Expr → Option ℕ → Option String → Bool → DecordReader
fields predicate rate type audio = record {
  predicate = predicate;
  sampling_rate = rate_or_one rate;
  sampling_type = type;
  read_audio = audio;
}

pub init-eq-ok :
    (predicate : Option Expr) (rate : Option ℕ) (type : Option String) (audio : Bool)
    (reader : DecordReader)
    → init predicate rate type audio ≡ ok reader
    → reader ≡ fields predicate rate type audio
unfolding init
init-eq-ok predicate rate type audio reader made =
    let (done, asserted, same) =
      >>=-eq-ok (initialize_reader (fields predicate rate type audio))
        (λ done. ok (fields predicate rate type audio)) made in
    sym (ok-injective same)

module _ (predicate : Option Expr) (num_frames : ℕ) (found : RangesOf predicate num_frames) where
  sampled-filter :
      (rate : ℕ)
      → 0 < rate
      → read_sampled rate found.ranges
        ≡ filter (is_selected predicate rate false) (frames 0 num_frames)
  sampled-filter rate h =
      read_sampled-filter (pos num_frames -ℤ pos 1) rate found.ranges 0 num_frames h found.bounded
        found.separated (starts found.ranges found.bounded)
        (ground (arith, -ℤ_parts (pos num_frames) (pos 1)))
      ∙ filter-frames_cong (is_read rate found.ranges) (is_selected predicate rate false) 0
          num_frames (λ i a b. rw (found.exact i (omega arith)) refl)
    where
      starts :
          (rs : List Range) → AllInBounds (pos 0) (pos num_frames -ℤ pos 1) rs → StartsFrom 0 rs
      starts [] h = tt
      starts (r ∷ rs) h = ground (arith, h.0)

  all-filter :
      (rate : ℕ) (audio : Bool)
      → (rate == 1 || audio) ≡ true
      → read_all found.ranges ≡ filter (is_selected predicate rate audio) (frames 0 num_frames)
  all-filter rate audio h =
      read_all_lem found.ranges
      ∙ sampled-filter 1 (omega arith)
      ∙ filter-frames_cong (is_selected predicate 1 false) (is_selected predicate rate audio) 0
          num_frames
          (λ i a b. ap (λ m. holds_at_opt predicate (pos i) && m) (every rate audio (pos i) h))
    where
      every :
          (rate : ℕ) (audio : Bool) (i : ℤ)
          → (rate == 1 || audio) ≡ true
          → is_multiple 1 i ≡ (audio || is_multiple rate i)
      every rate true i h = every_is_multiple i
      every rate false i h = let one : rate ≡ 1 = ground arith in rw one refl

-- A reader that `__init__` makes reads, unless it samples key frames, the frames of the video that
-- satisfy the predicate and whose number is a multiple of the sampling rate, each once and in order;
-- of an audio stream all that satisfy the predicate. The reader has no predicate, or one made by AND
-- and OR from comparisons of a column with integers, each of which is the number of a frame of the
-- video.
pub read-filter :
    (predicate : Option Expr) (rate : Option ℕ) (type : Option String) (audio : Bool)
    (reader : DecordReader) (num_frames : ℕ) (key_frames : List ℤ)
    → init predicate rate type audio ≡ ok reader
    → is_type type iframes ≡ false
    → is_readable predicate num_frames ≡ true
    → read reader num_frames key_frames
      ≡ ok (filter (is_selected predicate (rate_or_one rate) audio) (frames 0 num_frames))
unfolding init read
read-filter predicate rate type audio reader num_frames key_frames made no_iframes readable =
    let found : RangesOf predicate num_frames = range_list_lem predicate num_frames readable in
    rw (init-eq-ok predicate rate type audio reader made, found.found, no_iframes)
      (elim (Bool-cases (rate_or_one rate == 1 || audio)) [
        | inl e ↦ rw e (ap ok (all-filter predicate num_frames found (rate_or_one rate) audio e))
        | inr e ↦ rw e (
            ap ok (
              sampled-filter predicate num_frames found (rate_or_one rate) (rate_or_one_pos rate)
              ∙ ap (λ a. filter (is_selected predicate (rate_or_one rate) a) (frames 0 num_frames))
                  (no_audio (rate_or_one rate == 1) audio e)))
      ])
  where
    no_audio : (p a : Bool) → (p || a) ≡ false → false ≡ a
    no_audio p a h = ground arith
