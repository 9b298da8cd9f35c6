-- ===== src/Readers/DecordReader/Reads.antt =====
-- The loop over the ranges reads the frames that lie in them and are multiples of the rate.
use eva.Expression.Ranges.Separated.{Separated}
use eva.Expression.Ranges.Union.{Range, range, within, within_any}
use eva.Prelude.{
  ℕ, ◌+◌, ◌-◌, ◌≤◌, ◌<◌, ◌≡◌, refl, sym, ap₂, subst, ◌∙◌, ◌⊎◌, inl, inr, Bool, true, false, ◌&&◌,
  ◌||◌, List, [], ◌∷◌, ◌++◌, arith, filter,
}
use eva.Prelude.Int.{ℤ, pos, negsuc, ◌+ℤ◌, ltb_ℤ, +ℤ_parts, -ℤ_parts, leb_ℤ}
use eva.Readers.DecordReader.Defs.{rounds, read_sampled}
use eva.Readers.DecordReader.Frames.{
  frames, filter-frames_cong, filter-frames_none, filter-frames_split, is_multiple, ids_from-align,
}
use eva.Readers.DecordReader.InBounds.{in_bounds, AllInBounds}

-- the first range begins at `lo` or later
abbrev pub StartsFrom : ℕ → List Range → Type 0
StartsFrom lo [] = Unit
StartsFrom lo (r ∷ rs) = leb_ℤ (pos lo) r.begin ≡ true

-- the frames that the ranges and the rate let through
abbrev pub is_read : ℕ → List Range → ℤ → Bool
is_read rate rs i = within_any i rs && is_multiple rate i

-- The frames of one range stand before those of the ranges after it.
read_sampled-first :
    (rate begin size : ℕ) (end : ℤ) (rs : List Range) (lo n : ℕ)
    → 0 < rate
    → size ≡ rounds (pos begin) end
    → lo ≤ begin
    → begin + size ≤ lo + n
    → ((i : ℕ) → i < begin → within_any (pos i) (range (pos begin) end ∷ rs) ≡ false)
    → read_sampled rate rs
      ≡ filter (is_read rate rs) (frames (begin + size) (lo + n - (begin + size)))
    → read_sampled rate (range (pos begin) end ∷ rs)
      ≡ filter (is_read rate (range (pos begin) end ∷ rs)) (frames lo n)
unfolding read_sampled within_any
read_sampled-first rate begin size end rs lo n hr hs hl hn before rest =
    let ranges : List Range = range (pos begin) end ∷ rs in
    ap₂ ◌++◌
      (ids_from-align rate begin size end hr hs
        ∙ filter-frames_cong (is_multiple rate) (is_read rate ranges) begin size
            (λ i a b. inside i a b))
      (rest
        ∙ filter-frames_cong (is_read rate rs) (is_read rate ranges) (begin + size)
            (lo + n - (begin + size)) (λ i a b. after i a))
    ∙ sym (
        filter-frames_split (is_read rate ranges) lo n begin size hl hn
          (λ i a. rw (before i a) refl))
  where
    inside :
        (i : ℕ)
        → begin ≤ i
        → i < begin + size
        → is_multiple rate (pos i) ≡ (
            (within (pos i) (range (pos begin) end) || within_any (pos i) rs)
            && is_multiple rate (pos i))
    inside i a b =
        let here : within (pos i) (range (pos begin) end) ≡ true = ground (arith, hs) in
        rw here refl

    after :
        (i : ℕ)
        → begin + size ≤ i
        → (within_any (pos i) rs && is_multiple rate (pos i)) ≡ (
            (within (pos i) (range (pos begin) end) || within_any (pos i) rs)
            && is_multiple rate (pos i))
    after i a =
        let past : within (pos i) (range (pos begin) end) ≡ false = ground (arith, hs) in
        rw past refl

module _ (upper : ℤ) where
  StartsFrom-tail :
      (lo : ℕ) (r : Range) (rs : List Range)
      → Separated (r ∷ rs)
      → in_bounds (pos 0) upper r ≡ true
      → (leb_ℤ (pos lo) r.begin ≡ true) ⊎ (leb_ℤ (pos lo) (r.end +ℤ pos 1) ≡ true)
      → StartsFrom lo rs
  StartsFrom-tail lo r [] h b k = tt
  StartsFrom-tail lo r (s ∷ rs) h b (inl k) =
      ground (arith, h.0, -ℤ_parts s.begin (pos 1), -ℤ_parts r.begin (pos 1))
  StartsFrom-tail lo r (s ∷ rs) h b (inr k) =
      ground (arith, h.0, -ℤ_parts s.begin (pos 1), +ℤ_parts r.end (pos 1))

  pub Separated-tail : (r : Range) (rs : List Range) → Separated (r ∷ rs) → Separated rs
  Separated-tail r [] h = tt
  Separated-tail r (s ∷ rs) h = h.1

  -- before the first range lies no number of the ranges
  pub within_any-before :
      (z : ℤ) (r : Range) (rs : List Range)
      → AllInBounds (pos 0) upper (r ∷ rs)
      → Separated (r ∷ rs)
      → ltb_ℤ z r.begin ≡ true
      → within_any z (r ∷ rs) ≡ false
  unfolding within_any
  within_any-before z r [] b h k = ground arith
  within_any-before z r (s ∷ rs) b h k =
      let rest : within_any z (s ∷ rs) ≡ false =
        within_any-before z s rs b.1 h.1
          (ground (arith, h.0, b.0, -ℤ_parts s.begin (pos 1), -ℤ_parts r.begin (pos 1))) in
      rw rest (outside r k)
    where
      outside : (r : Range) → ltb_ℤ z r.begin ≡ true → (within z r || false) ≡ false
      outside r k = ground arith

  pub read_sampled-filter :
      (rate : ℕ) (rs : List Range) (lo n : ℕ)
      → 0 < rate
      → AllInBounds (pos 0) upper rs
      → Separated rs
      → StartsFrom lo rs
      → ltb_ℤ upper (pos (lo + n)) ≡ true
      → read_sampled rate rs ≡ filter (is_read rate rs) (frames lo n)
  unfolding read_sampled within_any
  read_sampled-filter rate [] lo n hr b h k u =
      sym (filter-frames_none (λ i. false) lo n (λ i a c. refl))
  read_sampled-filter rate (r ∷ rs) lo n hr b h k u =
      let (begin, e) = natural r.begin (ground (arith, b.0)) in
      let bounds : in_bounds (pos 0) upper (range (pos begin) r.end) ≡ true = rw e at b.0 in
      let start : leb_ℤ (pos lo) (pos begin) ≡ true = rw e at k in
      let ends = last_number begin r.end lo n bounds u start in
      subst
        (λ z.
          read_sampled rate (range z r.end ∷ rs)
          ≡ filter (is_read rate (range z r.end ∷ rs)) (frames lo n))
        (sym e)
        (read_sampled-first rate begin (rounds (pos begin) r.end) r.end rs lo n hr refl ends.0
          ends.1 (λ i a. rw e at (within_any-before (pos i) r rs b h (rw e (ground arith))))
          (read_sampled-filter rate rs (begin + rounds (pos begin) r.end)
            (lo + n - (begin + rounds (pos begin) r.end)) hr b.1 (Separated-tail r rs h)
            (StartsFrom-tail (begin + rounds (pos begin) r.end) r rs h b.0 (inr ends.2))
            (ground arith)))
    where
      natural : (z : ℤ) → leb_ℤ (pos 0) z ≡ true → (m : ℕ) × (z ≡ pos m)
      natural (pos m) h = (m, refl)
      natural (negsuc m) h = absurd (ground arith)

      last_number :
          (begin : ℕ) (end : ℤ) (lo n : ℕ)
          → in_bounds (pos 0) upper (range (pos begin) end) ≡ true
          → ltb_ℤ upper (pos (lo + n)) ≡ true
          → leb_ℤ (pos lo) (pos begin) ≡ true
          → (lo ≤ begin)
            × (begin + rounds (pos begin) end ≤ lo + n)
            × (leb_ℤ (pos (begin + rounds (pos begin) end)) (end +ℤ pos 1) ≡ true)
      last_number begin end lo n h u k = (
        ground arith,
        ground (arith, -ℤ_parts (pos begin) (pos 1)),
        ground (arith, -ℤ_parts (pos begin) (pos 1), +ℤ_parts end (pos 1)),
      )
