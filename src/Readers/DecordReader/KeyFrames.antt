-- ===== src/Readers/DecordReader/KeyFrames.antt =====
-- What `_read` reads where it samples key frames: every rate-th of them, of which the predicate holds.
use eva.Expression.Ranges.Separated.{Separated}
use eva.Expression.Ranges.Union.{Range, within, within_any}
use eva.Prelude.{
  ℕ, zero, suc, ◌+◌, ◌-◌, ◌≤◌, ◌<◌, ◌≡◌, refl, sym, ap, ap₂, ◌∙◌, inl, inr, Bool, true, false, ◌&&◌,
  none, some, List, [], ◌∷◌, ◌++◌, arith, Bool-cases, Option-cases, length, get_elem?, filter,
  every_from,
}
use eva.Prelude.Int.{ℤ, pos, ◌+ℤ◌, ltb_ℤ, +ℤ_parts, leb_ℤ}
use eva.Readers.DecordReader.Defs.{skip_before, take_until, read_key_frames}
use eva.Readers.DecordReader.InBounds.{AllInBounds}
use eva.Readers.DecordReader.Reads.{Separated-tail, within_any-before}

every_from-some :
    (rate idx : ℕ) (xs : List ℤ) (x : ℤ)
    → 0 < rate
    → get_elem? xs idx ≡ some x
    → every_from idx rate xs ≡ x ∷ every_from (idx + rate) rate xs
unfolding every_from
every_from-some rate idx [] x h e = absurd (cc)
every_from-some (suc r) zero (y ∷ ys) x h e =
    let shorter : suc r - 1 ≡ r = omega arith in
    let whole : 0 + suc r ≡ suc r = omega arith in
    ap₂ ◌∷◌ (some-injective e) (
      ap (λ k. every_from k (suc r) ys) shorter
      ∙ ap (λ k. every_from k (suc r) (y ∷ ys)) (sym whole))
  where
    some-injective : {a b : ℤ} → some a ≡ some b → a ≡ b
    some-injective e = cc
every_from-some zero zero (y ∷ ys) x h e = absurd (omega arith)
every_from-some rate (suc idx) (y ∷ ys) x h e =
    every_from-some rate idx ys x h e ∙ ap (λ k. x ∷ every_from k rate (y ∷ ys)) (next idx rate)
  where
    next : (a b : ℕ) → suc (a + b) ≡ suc a + b
    next a b = omega arith

every_from-none :
    (rate idx : ℕ) (xs : List ℤ) → get_elem? xs idx ≡ none → every_from idx rate xs ≡ []
unfolding every_from
every_from-none rate idx [] e = refl
every_from-none rate zero (y ∷ ys) e = absurd (cc)
every_from-none rate (suc idx) (y ∷ ys) e = every_from-none rate idx ys e

-- every element is at least `b`
abbrev pub AtLeast : ℤ → List ℤ → Type 0
AtLeast b [] = Unit
AtLeast b (x ∷ xs) = (leb_ℤ b x ≡ true) × AtLeast b xs

abbrev pub Ascending : List ℤ → Type 0
Ascending [] = Unit
Ascending (x ∷ xs) = AtLeast x xs × Ascending xs

AtLeast-lower : (b c : ℤ) (xs : List ℤ) → leb_ℤ c b ≡ true → AtLeast b xs → AtLeast c xs
AtLeast-lower b c [] h k = tt
AtLeast-lower b c (x ∷ xs) h k = (ground (arith, k.0), AtLeast-lower b c xs h k.1)

AtLeast-every_from :
    (b : ℤ) (skip rate : ℕ) (xs : List ℤ) → AtLeast b xs → AtLeast b (every_from skip rate xs)
unfolding every_from
AtLeast-every_from b skip rate [] h = tt
AtLeast-every_from b zero rate (x ∷ xs) h = (h.0, AtLeast-every_from b (rate - 1) rate xs h.1)
AtLeast-every_from b (suc skip) rate (x ∷ xs) h = AtLeast-every_from b skip rate xs h.1

Ascending-every_from :
    (skip rate : ℕ) (xs : List ℤ) → Ascending xs → Ascending (every_from skip rate xs)
unfolding every_from
Ascending-every_from skip rate [] h = tt
Ascending-every_from zero rate (x ∷ xs) h =
    (AtLeast-every_from x (rate - 1) rate xs h.0, Ascending-every_from (rate - 1) rate xs h.1)
Ascending-every_from (suc skip) rate (x ∷ xs) h = Ascending-every_from skip rate xs h.1

get_elem?-length : (xs : List ℤ) (i : ℕ) (x : ℤ) → get_elem? xs i ≡ some x → i < length xs
get_elem?-length [] i x h = absurd (cc)
get_elem?-length (y ∷ ys) zero x h = omega arith
get_elem?-length (y ∷ ys) (suc i) x h = omega (arith, get_elem?-length ys i x h)

get_elem?-beyond : (xs : List ℤ) (i : ℕ) → get_elem? xs i ≡ none → length xs ≤ i
get_elem?-beyond [] i h = omega arith
get_elem?-beyond (y ∷ ys) zero h = absurd (cc)
get_elem?-beyond (y ∷ ys) (suc i) h = omega (arith, get_elem?-beyond ys i h)

module _ (rate : ℕ) (key_frames : List ℤ) (hr : 0 < rate) (ascending : Ascending key_frames) where
  abbrev pub frames_left : ℕ → List ℤ
  frames_left idx = every_from idx rate key_frames

  frames_left-some :
      (idx : ℕ) (x : ℤ)
      → get_elem? key_frames idx ≡ some x
      → frames_left idx ≡ x ∷ frames_left (idx + rate)
  frames_left-some idx x e = every_from-some rate idx key_frames x hr e

  -- what is left begins with the element at the index, and the others are no smaller
  frames_left-AtLeast :
      (idx : ℕ) (x : ℤ) → get_elem? key_frames idx ≡ some x → AtLeast x (frames_left (idx + rate))
  frames_left-AtLeast idx x e =
      let all : Ascending (every_from idx rate key_frames) =
        Ascending-every_from idx rate key_frames ascending in
      (rw (every_from-some rate idx key_frames x hr e) at all).0

  frames_left-past : (idx : ℕ) → length key_frames ≤ idx → frames_left idx ≡ []
  frames_left-past idx h = elim (Option-cases (get_elem? key_frames idx)) [
    | inl e ↦ every_from-none rate idx key_frames e
    | inr (x, e) ↦ absurd (omega (arith, get_elem?-length key_frames idx x e))
  ]

  -- The loop that skips leaves out nothing but frames before the beginning.
  skip_before_lem :
      (begin : ℤ) (p : ℤ → Bool) (fuel idx : ℕ)
      → length key_frames < fuel + idx
      → ((z : ℤ) → ltb_ℤ z begin ≡ true → p z ≡ false)
      → (filter p (frames_left idx)
          ≡ filter p (frames_left (skip_before fuel rate key_frames begin idx)))
        × AtLeast begin (frames_left (skip_before fuel rate key_frames begin idx))
  unfolding skip_before
  skip_before_lem begin p zero idx h low = (refl, rw (frames_left-past idx (omega arith)) tt)
  skip_before_lem begin p (suc fuel) idx h low = elim (Option-cases (get_elem? key_frames idx)) [
    | inl e ↦
        rw (skip_before, e) (refl, rw (frames_left-past idx (get_elem?-beyond key_frames idx e)) tt)
    | inr (x, e) ↦ elim (Bool-cases (ltb_ℤ x begin)) [
      | inl k ↦
          let rest = skip_before_lem begin p fuel (idx + rate) (omega arith) low in
          rw (skip_before, e, k)
            (
              ap (filter p) (frames_left-some idx x e)
                  ∙ skipped x (frames_left (idx + rate)) (low x k)
                  ∙ rest.0,
              rest.1,
            )
      | inr k ↦
          rw (skip_before, e, k)
            (
              refl,
              rw (frames_left-some idx x e) (
                ground arith,
                AtLeast-lower x begin (frames_left (idx + rate)) (ground arith)
                    (frames_left-AtLeast idx x e),
              ),
            )
    ]
  ]
    where
      skipped : (x : ℤ) (xs : List ℤ) → p x ≡ false → filter p (x ∷ xs) ≡ filter p xs
      skipped x xs h = rw h refl

  take_until_lem :
      (begin end : ℤ) (p : ℤ → Bool) (fuel idx : ℕ)
      → length key_frames < fuel + idx
      → ((z : ℤ) → leb_ℤ begin z ≡ true → leb_ℤ z end ≡ true → p z ≡ true)
      → AtLeast begin (frames_left idx)
      → (filter p (frames_left idx)
          ≡ (take_until fuel rate key_frames end idx).0
            ++ filter p (frames_left (take_until fuel rate key_frames end idx).1))
        × AtLeast (end +ℤ pos 1) (frames_left (take_until fuel rate key_frames end idx).1)
  unfolding take_until
  take_until_lem begin end p zero idx h inside a =
      (refl, rw (frames_left-past idx (omega arith)) tt)
  take_until_lem begin end p (suc fuel) idx h inside a =
      elim (Option-cases (get_elem? key_frames idx)) [
        | inl e ↦
            rw (take_until, e)
              (refl, rw (frames_left-past idx (get_elem?-beyond key_frames idx e)) tt)
        | inr (x, e) ↦ elim (Bool-cases (leb_ℤ x end)) [
          | inl k ↦
              let all : AtLeast begin (x ∷ frames_left (idx + rate)) =
                rw (frames_left-some idx x e) at a in
              let rest = take_until_lem begin end p fuel (idx + rate) (omega arith) inside all.1 in
              rw (take_until, e, k)
                (
                  ap (filter p) (frames_left-some idx x e)
                      ∙ taken x (frames_left (idx + rate)) (inside x all.0 k)
                      ∙ ap (◌∷◌ x) rest.0,
                  rest.1,
                )
          | inr k ↦
              rw (take_until, e, k)
                (
                  refl,
                  rw (frames_left-some idx x e) (
                    ground (arith, +ℤ_parts end (pos 1)),
                    AtLeast-lower x (end +ℤ pos 1) (frames_left (idx + rate))
                        (ground (arith, +ℤ_parts end (pos 1))) (frames_left-AtLeast idx x e),
                  ),
                )
        ]
      ]
    where
      taken : (x : ℤ) (xs : List ℤ) → p x ≡ true → filter p (x ∷ xs) ≡ x ∷ filter p xs
      taken x xs h = rw h refl

  -- The loop over the ranges reads what lies in one of them.
  pub read_key_frames_lem :
      (upper : ℤ) (rs : List Range) (idx : ℕ)
      → AllInBounds (pos 0) upper rs
      → Separated rs
      → read_key_frames rate key_frames rs idx ≡ filter (λ z. within_any z rs) (frames_left idx)
  unfolding read_key_frames within_any
  read_key_frames_lem upper [] idx b h = sym (filter_none (frames_left idx))
    where
      filter_none : (xs : List ℤ) → filter (λ z. false) xs ≡ []
      filter_none [] = refl
      filter_none (x ∷ xs) = filter_none xs
  read_key_frames_lem upper (r ∷ rs) idx b h =
      let fuel : ℕ = length key_frames + 1 in
      let start : ℕ = skip_before fuel rate key_frames r.begin idx in
      let skipped =
        skip_before_lem r.begin (λ z. within_any z (r ∷ rs)) fuel idx (omega arith)
          (λ z a. within_any-before upper z r rs b h a) in
      let taken =
        take_until_lem r.begin r.end (λ z. within_any z (r ∷ rs)) fuel start (omega arith)
          (λ z a c. inside z a c) skipped.1 in
      let next : ℕ = (take_until fuel rate key_frames r.end start).1 in
      sym (
        skipped.0
        ∙ taken.0
        ∙ ap (λ rest. (take_until fuel rate key_frames r.end start).0 ++ rest)
            (filter-past r rs (frames_left next) taken.1
              ∙ sym (read_key_frames_lem upper rs next b.1 (Separated-tail upper r rs h))))
    where
      inside :
          (z : ℤ) → leb_ℤ r.begin z ≡ true → leb_ℤ z r.end ≡ true → within_any z (r ∷ rs) ≡ true
      inside z a c = ground arith

      filter-past :
          (r : Range) (rs : List Range) (xs : List ℤ)
          → AtLeast (r.end +ℤ pos 1) xs
          → filter (λ z. within_any z (r ∷ rs)) xs ≡ filter (λ z. within_any z rs) xs
      filter-past r rs [] a = refl
      filter-past r rs (x ∷ xs) a =
          let past : within x r ≡ false = ground (arith, a.0, +ℤ_parts r.end (pos 1)) in
          rw (past, filter-past r rs xs a.1) refl

-- every number is that of a frame of the video
abbrev pub AllFrames : ℕ → List ℤ → Type 0
AllFrames num_frames [] = Unit
AllFrames num_frames (x ∷ xs) =
    ((leb_ℤ (pos 0) x && ltb_ℤ x (pos num_frames)) ≡ true) × AllFrames num_frames xs
