-- ===== src/Dict.antt =====
-- Python's `dict` with string keys, in insertion order: assigning to a key that is present keeps
-- its place.
use region_sensitivity.Prelude.{
  ◌∙◌, ◌≡◌, refl, ap, String, Bool, true, false, Option, none, some, List, [], ◌∷◌, ◌++◌, arith,
  str_eq, eq_iff, ℕ, zero, suc, take, drop, if◌then◌else◌,
}

abbrev pub Dict {ℓ} : Type ℓ → Type ℓ
Dict V = List (String × V)

module _ {ℓ} {V : Type ℓ} where
  -- d.get(key)
  unfoldable pub get : String → Dict V → Option V
  get key [] = none
  get key ((k, v) ∷ d) = if str_eq k key then some v else get key d

  -- d[key] = value
  unfoldable pub put : String → V → Dict V → Dict V
  put key value [] = (key, value) ∷ []
  put key value ((k, v) ∷ d) = if str_eq k key then (k, value) ∷ d else (k, v) ∷ put key value d

  pub get-put :
      (key other : String) (value : V) (d : Dict V)
      → get other (put key value d) ≡ (if str_eq key other then some value else get other d)
  unfolding get put
  get-put key other value [] = refl
  get-put key other value ((k, v) ∷ d) =
      ground (arith, eq_iff k key, eq_iff k other, eq_iff key other, get-put key other value d)

  -- `{key(x): value(x) for x in xs}` on top of a dict: later entries win
  unfoldable pub put_all : List (String × V) → Dict V → Dict V
  put_all [] d = d
  put_all ((k, v) ∷ entries) d = put_all entries (put k v d)

  -- The last entry of a key, if there is one.
  unfoldable pub last_entry : String → List (String × V) → Option V → Option V
  last_entry key [] found = found
  last_entry key ((k, v) ∷ entries) found =
      last_entry key entries (if str_eq k key then some v else found)

  pub get-put_all :
      (key : String) (entries : List (String × V)) (d : Dict V)
      → get key (put_all entries d) ≡ last_entry key entries (get key d)
  unfolding put_all last_entry
  get-put_all key [] d = refl
  get-put_all key ((k, v) ∷ entries) d =
      get-put_all key entries (put k v d) ∙ ap (last_entry key entries) (get-put k key v d)

  pub put_all-append :
      (xs ys : List (String × V)) (d : Dict V) → put_all (xs ++ ys) d ≡ put_all ys (put_all xs d)
  unfolding put_all
  put_all-append [] ys d = refl
  put_all-append ((k, v) ∷ xs) ys d = put_all-append xs ys (put k v d)

-- `len(set(keys)) != len(keys)` is false: no key occurs twice
unfoldable pub contains : String → List String → Bool
contains key [] = false
contains key (k ∷ ks) = if str_eq k key then true else contains key ks

unfoldable pub is_distinct : List String → Bool
unfolding contains
is_distinct [] = true
is_distinct (k ∷ ks) = if contains k ks then false else is_distinct ks

-- What is cut from a list without repetitions has none.
contains-take :
    (key : String) (n : ℕ) (ks : List String)
    → contains key (take n ks) ≡ true
    → contains key ks ≡ true
unfolding contains
contains-take key zero ks h = ground arith
contains-take key (suc n) [] h = h
contains-take key (suc n) (k ∷ ks) h = ground (arith, contains-take key n ks)

pub is_distinct-drop :
    (n : ℕ) (ks : List String) → is_distinct ks ≡ true → is_distinct (drop n ks) ≡ true
unfolding is_distinct
is_distinct-drop zero ks h = h
is_distinct-drop (suc n) [] h = h
is_distinct-drop (suc n) (k ∷ ks) h = is_distinct-drop n ks (ground arith)

pub is_distinct-take :
    (n : ℕ) (ks : List String) → is_distinct ks ≡ true → is_distinct (take n ks) ≡ true
unfolding is_distinct
is_distinct-take zero ks h = refl
is_distinct-take (suc n) [] h = h
is_distinct-take (suc n) (k ∷ ks) h = ground (arith, contains-take k n ks, is_distinct-take n ks)
