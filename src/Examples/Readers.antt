-- ===== src/Examples/Readers.antt =====
-- The theorems on `_read`, at `id > 3 AND (id <= 10 OR 20 = id)` on a video of 30 frames.
use eva.Examples.Ranges.{id_predicate}
use eva.Expression.Holds.{holds}
use eva.Expression.Ranges.Extract.{extract_range_list_from_comparison_expr}
use eva.Expression.Ranges.Total.{has_ranges}
use eva.Expression.Ranges.Union.{overlap, union}
use eva.Expression.Values.{value_of}
use eva.Prelude.{◌≡◌, refl, true, false, none, some, List, [], ◌∷◌, every_from}
use eva.Prelude.Int.{ℤ, pos, ◌-ℤ◌}
use eva.Prelude.Result.{ok}
use eva.Readers.DecordReader.Bounds.{read-filter_key_frames, read-AllFrames}
use eva.Readers.DecordReader.Defs.{DecordReader, iframes, initialize_reader, init, read}
use eva.Readers.DecordReader.Frames.{frames}
use eva.Readers.DecordReader.InBounds.{constants_within}
use eva.Readers.DecordReader.KeyFrames.{Ascending, AllFrames}
use eva.Readers.DecordReader.Selected.{is_readable, fields, read-filter}

abbrev sampling_2 : DecordReader
sampling_2 = fields (some id_predicate) (some 2) none false

abbrev sampling_key_frames : DecordReader
sampling_key_frames = fields (some id_predicate) (some 2) (some iframes) false

sampling_2-made : init (some id_predicate) (some 2) none false ≡ ok sampling_2
unfolding init initialize_reader
sampling_2-made = refl

sampling_key_frames-made :
    init (some id_predicate) (some 2) (some iframes) false ≡ ok sampling_key_frames
unfolding init initialize_reader
sampling_key_frames-made = refl

predicate_readable : is_readable (some id_predicate) 30 ≡ true
unfolding has_ranges constants_within ◌-ℤ◌
predicate_readable = refl

-- key frames 0, 5, 8, 9, 20 and 29
abbrev key_frames : List ℤ
key_frames = pos 0 ∷ pos 5 ∷ pos 8 ∷ pos 9 ∷ pos 20 ∷ pos 29 ∷ []

key_frames_ascend : Ascending key_frames
key_frames_ascend = (
  (refl, (refl, (refl, (refl, (refl, tt))))),
  (
    (refl, (refl, (refl, (refl, tt)))),
    ((refl, (refl, (refl, tt))), ((refl, (refl, tt)), ((refl, tt), (tt, tt)))),
  ),
)

key_frames_in_video : AllFrames 30 key_frames
key_frames_in_video = (refl, (refl, (refl, (refl, (refl, (refl, tt))))))

read-filter_example : read sampling_2 30 [] ≡ ok (pos 4 ∷ pos 6 ∷ pos 8 ∷ pos 10 ∷ pos 20 ∷ [])
unfolding frames holds value_of
read-filter_example =
    read-filter (some id_predicate) (some 2) none false sampling_2 30 [] sampling_2-made refl
      predicate_readable

read-filter_key_frames_example : read sampling_key_frames 30 key_frames ≡ ok (pos 8 ∷ pos 20 ∷ [])
unfolding every_from holds value_of
read-filter_key_frames_example =
    read-filter_key_frames (some id_predicate) (some 2) (some iframes) false sampling_key_frames 30
      key_frames sampling_key_frames-made refl predicate_readable key_frames_ascend
      key_frames_in_video

sampled_8_20 : read sampling_key_frames 30 key_frames ≡ ok (pos 8 ∷ pos 20 ∷ [])
unfolding read extract_range_list_from_comparison_expr union overlap
sampled_8_20 = refl

read-AllFrames_example : AllFrames 30 (pos 8 ∷ pos 20 ∷ [])
read-AllFrames_example =
    read-AllFrames (some id_predicate) (some 2) (some iframes) false sampling_key_frames 30
      key_frames (pos 8 ∷ pos 20 ∷ []) sampling_key_frames-made predicate_readable key_frames_ascend
      key_frames_in_video sampled_8_20
