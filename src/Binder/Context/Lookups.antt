-- ===== src/Binder/Context/Lookups.antt =====
-- What a dictionary without repetition gives back, and where two lists of keys are apart.
use eva.Binder.Context.Defs.{Dict, dict_get, keys_in, flat}
use eva.Binder.Context.Dictionaries.{dict_get-missing, AllDistinct, contains-append}
use eva.Prelude.{
  String, ◌≡◌, refl, sym, subst, inl, inr, Bool, true, false, Option, none, some, List, [], ◌∷◌,
  ◌++◌, arith, str_eq, eq_iff, Bool-cases,
}
use eva.Prelude.Texts.{contains}

module _ {V : Type 0} where
  -- the entries are those that a dictionary gives back
  abbrev pub AllFound : Dict V → Dict V → Type 0
  AllFound whole [] = Unit
  AllFound whole ((k, v) ∷ entries) = (dict_get whole k ≡ some v) × AllFound whole entries

  pub AllFound-cons :
      (k : String) (v : V) (whole entries : Dict V)
      → contains (keys_in entries) k ≡ false
      → AllFound whole entries
      → AllFound ((k, v) ∷ whole) entries
  unfolding dict_get contains
  AllFound-cons k v whole [] h found = tt
  AllFound-cons k v whole ((l, w) ∷ entries) h found =
      let apart : str_eq k l ≡ false = ground (arith, eq_iff k l, eq_iff l k) in
      (rw apart found.0, AllFound-cons k v whole entries (ground arith) found.1)

  pub AllFound-self : (entries : Dict V) → AllDistinct (keys_in entries) → AllFound entries entries
  unfolding dict_get
  AllFound-self [] h = tt
  AllFound-self ((k, v) ∷ entries) h =
      let same : str_eq k k ≡ true = (eq_iff k k).1 refl in
      (rw same refl, AllFound-cons k v entries entries h.0 (AllFound-self entries h.1))

pub AllDistinct-left : (xs ys : List String) → AllDistinct (xs ++ ys) → AllDistinct xs
AllDistinct-left [] ys h = tt
AllDistinct-left (x ∷ xs) ys h = (alone_there, AllDistinct-left xs ys h.1)
  where
    alone_there : contains xs x ≡ false
    alone_there = ground (arith, contains-append xs ys x)

pub AllDistinct-right : (xs ys : List String) → AllDistinct (xs ++ ys) → AllDistinct ys
AllDistinct-right [] ys h = h
AllDistinct-right (x ∷ xs) ys h = AllDistinct-right xs ys h.1

pub AllDistinct-apart :
    (xs ys : List String) (a : String)
    → AllDistinct (xs ++ ys)
    → contains ys a ≡ true
    → contains xs a ≡ false
unfolding contains
AllDistinct-apart [] ys a h k = refl
AllDistinct-apart (x ∷ xs) ys a h k =
    let rest = AllDistinct-apart xs ys a h.1 k in
    elim (Bool-cases (str_eq x a)) [
      | inl e ↦
          let there = contains-append xs ys x in
          let same = (eq_iff x a).0 e in
          let there_too : contains ys x ≡ true = subst (λ b. contains ys b ≡ true) (sym same) k in
          absurd (ground arith)
      | inr e ↦ rw e rest
    ]

module _ {V : Type 0} where
  -- the values of a dictionary are there
  abbrev pub all_some : Dict (Option V) → Bool
  all_some [] = true
  all_some ((k, none) ∷ entries) = false
  all_some ((k, some v) ∷ entries) = all_some entries

  pub flat-found :
      (entries : Dict (Option V)) (key : String)
      → all_some entries ≡ true
      → contains (keys_in entries) key ≡ true
      → (v : V) × (flat (dict_get entries key) ≡ some v)
  unfolding dict_get contains
  flat-found [] key h k = absurd (cc)
  flat-found ((l, none) ∷ entries) key h k = absurd (cc)
  flat-found ((l, some v) ∷ entries) key h k = elim (Bool-cases (str_eq l key)) [
    | inl e ↦ (v, rw e refl)
    | inr e ↦ let (w, found) = flat-found entries key h (ground arith) in (w, rw e found)
  ]

  pub dict_get-contains :
      (entries : Dict V) (key : String) {v : V}
      → dict_get entries key ≡ some v
      → contains (keys_in entries) key ≡ true
  dict_get-contains entries key h = elim (Bool-cases (contains (keys_in entries) key)) [
    | inl e ↦ e
    | inr e ↦ let missing = dict_get-missing entries key e in absurd (cc)
  ]
