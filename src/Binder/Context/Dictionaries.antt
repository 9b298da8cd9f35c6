-- ===== src/Binder/Context/Dictionaries.antt =====
-- Dictionaries with texts as keys, and lists of texts without repetition.
use eva.Binder.Context.Defs.{Dict, dict_get, dict_set, keys_in}
use eva.Prelude.{
  String, ◌≡◌, refl, sym, ap, ◌∙◌, inl, inr, false, ◌||◌, none, some, List, [], ◌∷◌, ◌++◌, arith,
  str_eq, eq_iff, if◌then◌else◌, Bool-cases,
}
use eva.Prelude.Texts.{contains}

module _ {V : Type 0} where
  pub dict_get-missing :
      (entries : Dict V) (key : String)
      → contains (keys_in entries) key ≡ false
      → dict_get entries key ≡ none
  unfolding contains dict_get
  dict_get-missing [] key h = refl
  dict_get-missing ((k, v) ∷ entries) key h = elim (Bool-cases (str_eq k key)) [
    | inl e ↦ absurd (ground arith)
    | inr e ↦ rw e (dict_get-missing entries key (ground arith))
  ]

  pub dict_get-dict_set :
      (entries : Dict V) (key other_key : String) (value : V)
      → dict_get (dict_set entries key value) other_key
        ≡ (if str_eq key other_key then some value else dict_get entries other_key)
  unfolding dict_get dict_set
  dict_get-dict_set [] key other_key value = refl
  dict_get-dict_set ((k, v) ∷ entries) key other_key value = elim (Bool-cases (str_eq k key)) [
    | inl e ↦
        let same = (eq_iff k key).0 e in
        rw (e, sym same)
          (elim (Bool-cases (str_eq k other_key)) [ inl d ↦ rw d refl | inr d ↦ rw d refl ])
    | inr e ↦ rw e (elim (Bool-cases (str_eq k other_key)) [
      | inl d ↦ rw d (elim (Bool-cases (str_eq key other_key)) [
        | inl c ↦
            let a = (eq_iff k other_key).0 d in
            let b = (eq_iff key other_key).0 c in
            let same = (eq_iff k key).1 (a ∙ sym b) in absurd (cc)
        | inr c ↦ rw c refl
      ])
      | inr d ↦ rw d (dict_get-dict_set entries key other_key value)
    ])
  ]

  pub keys_in-dict_set :
      (entries : Dict V) (key : String) (value : V)
      → contains (keys_in entries) key ≡ false
      → keys_in (dict_set entries key value) ≡ keys_in entries ++ (key ∷ [])
  unfolding contains dict_set
  keys_in-dict_set [] key value h = refl
  keys_in-dict_set ((k, v) ∷ entries) key value h = elim (Bool-cases (str_eq k key)) [
    | inl e ↦ absurd (ground arith)
    | inr e ↦ rw e (ap (◌∷◌ k) (keys_in-dict_set entries key value (ground arith)))
  ]

-- no text stands twice in a list
abbrev pub AllDistinct : List String → Type 0
AllDistinct [] = Unit
AllDistinct (x ∷ xs) = (contains xs x ≡ false) × AllDistinct xs

pub contains-append :
    (xs ys : List String) (a : String) → contains (xs ++ ys) a ≡ (contains xs a || contains ys a)
unfolding contains
contains-append [] ys a = refl
contains-append (x ∷ xs) ys a = ground (arith, contains-append xs ys a)

pub contains-none : (a : String) → contains [] a ≡ false
unfolding contains
contains-none a = refl

pub AllDistinct-insert :
    (xs ys : List String) (a : String)
    → contains (xs ++ ys) a ≡ false
    → AllDistinct (xs ++ ys)
    → AllDistinct (xs ++ (a ∷ ys))
unfolding contains
AllDistinct-insert [] ys a h d = (h, d)
AllDistinct-insert (x ∷ xs) ys a h d = (apart, AllDistinct-insert xs ys a (ground arith) d.1)
  where
    other : str_eq a x ≡ false
    other = elim (Bool-cases (str_eq a x)) [
      | inl e ↦ let same = (eq_iff x a).1 (sym ((eq_iff a x).0 e)) in absurd (ground arith)
      | inr e ↦ e
    ]

    apart : contains (xs ++ (a ∷ ys)) x ≡ false
    apart = ground (arith, other, contains-append xs (a ∷ ys) x, contains-append xs ys x)

pub snoc-append : (xs ys : List String) (a : String) → (xs ++ (a ∷ [])) ++ ys ≡ xs ++ (a ∷ ys)
snoc-append [] ys a = refl
snoc-append (x ∷ xs) ys a = ap (◌∷◌ x) (snoc-append xs ys a)

pub append-snoc :
    (xs ys : List String) (a : String) → (xs ++ ys) ++ (a ∷ []) ≡ xs ++ (ys ++ (a ∷ []))
append-snoc [] ys a = refl
append-snoc (x ∷ xs) ys a = ap (◌∷◌ x) (append-snoc xs ys a)

pub append_none : (xs : List String) → xs ++ [] ≡ xs
append_none [] = refl
append_none (x ∷ xs) = ap (◌∷◌ x) (append_none xs)
