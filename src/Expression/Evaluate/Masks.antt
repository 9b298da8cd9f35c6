-- ===== src/Expression/Evaluate/Masks.antt =====
-- The rows of a mask, and the values that are put back at them.
use eva.Expression.Evaluate.Defs.{labels_from, labels_where, rows_at, set_at}
use eva.Prelude.{
  ℕ, ◌+◌, ◌≡◌, refl, sym, ap, ◌∙◌, inl, inr, Bool, not, some, List, [], ◌∷◌, ◌++◌, map,
  if◌then◌else◌, Bool-cases, length, get_elem?, set, length-append, filter,
}
use eva.Prelude.Result.{ok}
use mathlib.Core.List.{append_assoc}

-- whether a value is wanted
abbrev pub is_wanted : Bool → Bool → Bool
is_wanted b v = if b then v else not v

get_elem?-length :
    {X : Type 0} (pre xs : List X) (x : X) → get_elem? (pre ++ x ∷ xs) (length pre) ≡ some x
get_elem?-length [] xs x = refl
get_elem?-length (y ∷ pre) xs x = get_elem?-length pre xs x

set-length :
    {X : Type 0} (pre xs : List X) (x y : X) → set (pre ++ x ∷ xs) (length pre) y ≡ pre ++ y ∷ xs
set-length [] xs x y = refl
set-length (z ∷ pre) xs x y = ap (◌∷◌ z) (set-length pre xs x y)

length-snoc : {X : Type 0} (pre : List X) (x : X) → length (pre ++ x ∷ []) ≡ length pre + 1
length-snoc pre x = length-append pre (x ∷ [])

shift : {X : Type 0} (pre xs : List X) (x : X) → pre ++ x ∷ xs ≡ (pre ++ x ∷ []) ++ xs
shift pre xs x = sym (append_assoc pre (x ∷ []) xs)

module _ {Row : Type 0} (b : Bool) (p : Row → Bool) where
  -- the mask of the rows, where so many rows stand before them
  abbrev pub mask_from : ℕ → List Row → List ℕ
  mask_from k xs = labels_where b (labels_from k (map p xs)) (map p xs)

  abbrev pub wanted_rows : List Row → List Row
  wanted_rows xs = filter (λ x. is_wanted b (p x)) xs

  rows_at-mask_from :
      (pre xs : List Row) (k : ℕ)
      → k ≡ length pre
      → rows_at (mask_from k xs) (pre ++ xs) ≡ ok (wanted_rows xs)
  unfolding rows_at
  rows_at-mask_from pre [] k h = refl
  rows_at-mask_from pre (x ∷ xs) k h =
      let rest : rows_at (mask_from (k + 1) xs) (pre ++ x ∷ xs) ≡ ok (wanted_rows xs) =
        ap (rows_at (mask_from (k + 1) xs)) (shift pre xs x)
        ∙ rows_at-mask_from (pre ++ x ∷ []) xs (k + 1)
            (ap (λ n. n + 1) h ∙ sym (length-snoc pre x)) in
      let here : get_elem? (pre ++ x ∷ xs) k ≡ some x =
        ap (get_elem? (pre ++ x ∷ xs)) h ∙ get_elem?-length pre xs x in
      elim (Bool-cases (is_wanted b (p x))) [ inl e ↦ rw (e, here, rest) refl | inr e ↦ rw e rest ]

  set_at-mask_from :
      (q : Row → Bool) (pre : List Bool) (xs : List Row) (k : ℕ)
      → k ≡ length pre
      → set_at (mask_from k xs) (map q (wanted_rows xs)) (pre ++ map p xs)
        ≡ ok (pre ++ map (λ x. if is_wanted b (p x) then q x else p x) xs)
  unfolding set_at
  set_at-mask_from q pre [] k h = refl
  set_at-mask_from q pre (x ∷ xs) k h =
      let next : (v : Bool) → k + 1 ≡ length (pre ++ v ∷ []) =
        λ v. ap (λ n. n + 1) h ∙ sym (length-snoc pre v) in
      let here : get_elem? (pre ++ p x ∷ map p xs) k ≡ some (p x) =
        ap (get_elem? (pre ++ p x ∷ map p xs)) h ∙ get_elem?-length pre (map p xs) (p x) in
      let put : set (pre ++ p x ∷ map p xs) k (q x) ≡ pre ++ q x ∷ map p xs =
        ap (λ n. set (pre ++ p x ∷ map p xs) n (q x)) h ∙ set-length pre (map p xs) (p x) (q x) in
      let ih : (front : List Bool)
          → k + 1 ≡ length front
          → set_at (mask_from (k + 1) xs) (map q (wanted_rows xs)) (front ++ map p xs)
            ≡ ok (front ++ map (λ y. if is_wanted b (p y) then q y else p y) xs) =
        λ front n. set_at-mask_from q front xs (k + 1) n in
      elim (Bool-cases (is_wanted b (p x))) [
        | inl e ↦ rw (e, here, put) (moved (q x) (ih (pre ++ q x ∷ []) (next (q x))))
        | inr e ↦ rw e (moved (p x) (ih (pre ++ p x ∷ []) (next (p x))))
      ]
    where
      moved :
          (v : Bool)
          → set_at (mask_from (k + 1) xs) (map q (wanted_rows xs)) ((pre ++ v ∷ []) ++ map p xs)
            ≡ ok ((pre ++ v ∷ []) ++ map (λ y. if is_wanted b (p y) then q y else p y) xs)
          → set_at (mask_from (k + 1) xs) (map q (wanted_rows xs)) (pre ++ v ∷ map p xs)
            ≡ ok (pre ++ v ∷ map (λ y. if is_wanted b (p y) then q y else p y) xs)
      moved v rest =
          ap (set_at (mask_from (k + 1) xs) (map q (wanted_rows xs))) (shift pre (map p xs) v)
          ∙ rest
          ∙ ap ok (sym (shift pre (map (λ y. if is_wanted b (p y) then q y else p y) xs) v))

  pub rows_at-mask : (xs : List Row) → rows_at (mask_from 0 xs) xs ≡ ok (wanted_rows xs)
  rows_at-mask xs = rows_at-mask_from [] xs 0 refl

  pub set_at-mask :
      (q : Row → Bool) (xs : List Row)
      → set_at (mask_from 0 xs) (map q (wanted_rows xs)) (map p xs)
        ≡ ok (map (λ x. if is_wanted b (p x) then q x else p x) xs)
  set_at-mask q xs = set_at-mask_from q [] xs 0 refl
