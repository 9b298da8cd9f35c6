-- ===== src/Prelude/Texts.antt =====
-- Sets of texts, as lists without repetition, and the texts that a program cuts at a separator.
use Prim.Native.Char.{code}
use eva.Prelude.{
  String, ◌≡◌, subst, inl, inr, Bool, true, false, ◌&&◌, ◌||◌, List, [], ◌∷◌, arith, str_eq, eq_iff,
  ◌==◌, if◌then◌else◌, Bool-cases,
}

unfoldable pub contains : List String → String → Bool
contains [] a = false
contains (x ∷ xs) a = str_eq x a || contains xs a

-- `s.add(a)` of a set
unfoldable pub add : List String → String → List String
unfolding contains
add s a = if contains s a then s else a ∷ s

-- `s.update(t)` of a set
unfoldable pub update : List String → List String → List String
unfolding add
update s [] = s
update s (a ∷ t) = update (add s a) t

-- `s.issubset(t)`
unfoldable pub is_subset : List String → List String → Bool
unfolding contains
is_subset [] t = true
is_subset (a ∷ s) t = contains t a && is_subset s t

-- `text.split(".")[0]`
unfoldable pub before_dot : String → String
before_dot String.[] = ""
before_dot (String.◌∷◌ c s) =
    let rest = before_dot s in if code c == b'.' then "" else String.◌∷◌ c rest

pub contains-add :
    (s : List String) (a b : String) → contains (add s a) b ≡ (str_eq a b || contains s b)
unfolding add contains
contains-add s a b = elim (Bool-cases (contains s a)) [
  | inl h ↦ rw h (ground (arith, contains_eq s a b h, eq_iff a b))
  | inr h ↦ rw h
]
  where
    contains_eq :
        (s : List String) (a b : String)
        → contains s a ≡ true
        → str_eq a b ≡ true
        → contains s b ≡ true
    contains_eq s a b h e = subst (λ x. contains s x ≡ true) ((eq_iff a b).0 e) h

pub contains-update :
    (s t : List String) (b : String) → contains (update s t) b ≡ (contains s b || contains t b)
unfolding update contains
contains-update s [] b = ground arith
contains-update s (a ∷ t) b = ground (arith, contains-update (add s a) t b, contains-add s a b)

pub is_subset-contains :
    (s t : List String) (a : String)
    → is_subset s t ≡ true
    → contains s a ≡ true
    → contains t a ≡ true
unfolding is_subset contains
is_subset-contains [] t a h k = absurd (cc)
is_subset-contains (x ∷ s) t a h k = ground (arith, eq_iff x a, is_subset-contains s t a)

-- one text after another
unfoldable pub join_texts : String → String → String
join_texts String.[] t = t
join_texts (String.◌∷◌ c s) t = String.◌∷◌ c (join_texts s t)

-- `text.startswith(prefix)`
unfoldable pub starts_with : String → String → Bool
starts_with String.[] s = true
starts_with (String.◌∷◌ c p) String.[] = false
starts_with (String.◌∷◌ c p) (String.◌∷◌ d s) = (code c == code d) && starts_with p s
