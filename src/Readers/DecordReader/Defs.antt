-- ===== src/Readers/DecordReader/Defs.antt =====
-- `DecordReader`: which frames of a video `_read` asks decord for, and in which order. The number of
-- frames and the indices of the key frames are decord's, and so is what it returns for a frame.
use eva.Expression.Ranges.Extract.{extract_range_list_from_predicate}
use eva.Expression.Ranges.Union.{Range, range}
use eva.Expression.Types.{Expr}
use eva.Prelude.{
  ◌%◌, ℕ, zero, suc, ◌+◌, ◌-◌, String, Bool, false, not, ◌||◌, Option, none, some, List, [], ◌∷◌,
  ◌++◌, str_eq, ◌==◌, if◌then◌else◌, length, get_elem?,
}
use eva.Prelude.Int.{ℤ, pos, negsuc, pos_part, neg_part, ◌+ℤ◌, ◌-ℤ◌, ltb_ℤ, leb_ℤ}
use eva.Prelude.Result.{Result, ok, assert, ◌>>=◌, ◌>>◌}

-- the fields that `__init__` sets, after `sampling_rate or 1`
pub record DecordReader : Type 0 where
  pub predicate : Option Expr
  pub sampling_rate : ℕ
  pub sampling_type : Option String
  pub read_audio : Bool

-- the constants `IFRAMES` and `AUDIORATE`
abbrev pub iframes : String
iframes = "IFRAMES"

abbrev pub audiorate : String
audiorate = "AUDIORATE"

abbrev pub is_type : Option String → String → Bool
is_type none t = false
is_type (some s) t = str_eq s t

-- `sampling_rate or 1`
abbrev pub rate_or_one : Option ℕ → ℕ
rate_or_one none = 1
rate_or_one (some n) = if n == 0 then 1 else n

-- the assertions of `initialize_reader`
unfoldable pub initialize_reader : DecordReader → Result (Unit {0})
initialize_reader reader =
    if reader.read_audio
    then assert (not (is_type reader.sampling_type iframes))
    else assert (not (is_type reader.sampling_type audiorate))

unfoldable pub init : Option Expr → Option ℕ → Option String → Bool → Result DecordReader
unfolding initialize_reader
init predicate sampling_rate sampling_type read_audio =
    let reader : DecordReader = record {
      predicate = predicate;
      sampling_rate = rate_or_one sampling_rate;
      sampling_type = sampling_type;
      read_audio = read_audio;
    } in
    initialize_reader reader >> ok reader

-- `while frame_id <= end: yield frame_id; frame_id += step`, which is also
-- `range(frame_id, end + 1, step)`
unfoldable pub ids_from : ℕ → ℕ → ℤ → ℤ → List ℤ
unfolding ◌+ℤ◌
ids_from zero step frame_id end = []
ids_from (suc fuel) step frame_id end =
    let rest = ids_from fuel step (frame_id +ℤ pos step) end in
    if leb_ℤ frame_id end then frame_id ∷ rest else []

-- as many rounds as the range has numbers
abbrev pub rounds : ℤ → ℤ → ℕ
rounds begin end = pos_part end + 1 + neg_part begin - (pos_part begin + neg_part end)

-- Python's `%`
abbrev pub mod_ℤ : ℤ → ℕ → ℕ
mod_ℤ (pos n) rate = n % rate
mod_ℤ (negsuc n) rate = rate - 1 - n % rate

-- align begin with the sampling rate
unfoldable pub align : ℕ → ℤ → ℤ
unfolding ◌+ℤ◌
align rate begin = if mod_ℤ begin rate == 0 then begin else begin +ℤ pos (rate - mod_ℤ begin rate)

-- the loop over `range_list`, one frame after the other
unfoldable pub read_all : List Range → List ℤ
unfolding ids_from
read_all [] = []
read_all (r ∷ rs) = ids_from (rounds r.begin r.end) 1 r.begin r.end ++ read_all rs

-- the loop over `range_list`, from one multiple of the rate to the next
unfoldable pub read_sampled : ℕ → List Range → List ℤ
unfolding ids_from align
read_sampled rate [] = []
read_sampled rate (r ∷ rs) =
    let begin : ℤ = align rate r.begin in
    ids_from (rounds begin r.end) rate begin r.end ++ read_sampled rate rs

-- `while idx < len(iframes) and iframes[idx] < begin: idx += rate`, in `fuel` rounds at most
unfoldable pub skip_before : ℕ → ℕ → List ℤ → ℤ → ℕ → ℕ
skip_before zero rate key_frames begin idx = idx
skip_before (suc fuel) rate key_frames begin idx =
    let rest = skip_before fuel rate key_frames begin (idx + rate) in
    elim (get_elem? key_frames idx) [
      | none ↦ idx
      | some frame_id ↦ if ltb_ℤ frame_id begin then rest else idx
    ]

-- `while idx < len(iframes) and iframes[idx] <= end: ...`: the frames, and the index after them
unfoldable pub take_until : ℕ → ℕ → List ℤ → ℤ → ℕ → List ℤ × ℕ
take_until zero rate key_frames end idx = ([], idx)
take_until (suc fuel) rate key_frames end idx =
    let rest = take_until fuel rate key_frames end (idx + rate) in
    elim (get_elem? key_frames idx) [
      | none ↦ ([], idx)
      | some frame_id ↦ if leb_ℤ frame_id end then (frame_id ∷ rest.0, rest.1) else ([], idx)
    ]

-- the loop over `range_list` on key frames; the index goes on from range to range
unfoldable pub read_key_frames : ℕ → List ℤ → List Range → ℕ → List ℤ
unfolding skip_before take_until
read_key_frames rate key_frames [] idx = []
read_key_frames rate key_frames (r ∷ rs) idx =
    let start : ℕ = skip_before (length key_frames + 1) rate key_frames r.begin idx in
    let read : List ℤ × ℕ = take_until (length key_frames + 1) rate key_frames r.end start in
    read.0 ++ read_key_frames rate key_frames rs read.1

-- the ranges that are read: all frames, or those of the predicate
unfoldable pub range_list : Option Expr → ℕ → Result (List Range)
unfolding ◌-ℤ◌ extract_range_list_from_predicate
range_list none num_frames = ok (range (pos 0) (pos num_frames -ℤ pos 1) ∷ [])
range_list (some predicate) num_frames =
    extract_range_list_from_predicate predicate (pos 0) (pos num_frames -ℤ pos 1)

-- the frames that `_read` passes to `_get_frame`
unfoldable pub read : DecordReader → ℕ → List ℤ → Result (List ℤ)
unfolding range_list read_all read_sampled read_key_frames
read reader num_frames key_frames = range_list reader.predicate num_frames >>= λ ranges. ok (
    if is_type reader.sampling_type iframes
    then read_key_frames reader.sampling_rate key_frames ranges 0
    else if reader.sampling_rate == 1 || reader.read_audio
    then read_all ranges
    else read_sampled reader.sampling_rate ranges)
