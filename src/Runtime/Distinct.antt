-- ===== src/Runtime/Distinct.antt =====
-- Lists of distinct identifiers that are split in two, or cut off.
use region_sensitivity.Prelude.{
  ◌≡◌, refl, ap, subst, true, false, String, List, [], ◌∷◌, ◌++◌, arith, str_eq, eq_iff, Bool-cases,
  inl, inr, length, take, all, All,
}
use region_sensitivity.Dict.{contains, is_distinct}
use region_sensitivity.Runtime.Validate.{keep}

-- the second and third lists make up the first, in its order
pub data Split : List String → List String → List String → Type 0 where
  split_end : Split [] [] []
  to_success : (id : String) (ids s f : List String) → Split ids s f → Split (id ∷ ids) (id ∷ s) f
  to_failure : (id : String) (ids s f : List String) → Split ids s f → Split (id ∷ ids) s (id ∷ f)

abbrev Within : List String → List String → Type 0
Within xs ids = All (λ x. contains x ids ≡ true) xs

contains-cons :
    (x y : String) (ids : List String) → contains x ids ≡ true → contains x (y ∷ ids) ≡ true
unfolding contains
contains-cons x y ids h = ground arith

contains_self : (x : String) (ids : List String) → contains x (x ∷ ids) ≡ true
unfolding contains
contains_self x ids = ground (arith, eq_iff x x)

Within-cons : (y : String) (xs ids : List String) → Within xs ids → Within xs (y ∷ ids)
Within-cons y [] ids h = tt
Within-cons y (x ∷ xs) ids h = (contains-cons x y ids h.0, Within-cons y xs ids h.1)

pub Within-refl : (ids : List String) → Within ids ids
Within-refl [] = tt
Within-refl (x ∷ ids) = (contains_self x ids, Within-cons x ids ids (Within-refl ids))

pub Split-Within : (ids s f : List String) → Split ids s f → Within s ids × Within f ids
Split-Within ids s f split_end = (tt, tt)
Split-Within ids s f (to_success id ids' s' f' split) =
    let (a, b) = Split-Within ids' s' f' split in
    ((contains_self id ids', Within-cons id s' ids' a), Within-cons id f' ids' b)
Split-Within ids s f (to_failure id ids' s' f' split) =
    let (a, b) = Split-Within ids' s' f' split in
    (Within-cons id s' ids' a, (contains_self id ids', Within-cons id f' ids' b))

-- what is not in the whole is in no part
not-Within :
    (x : String) (xs ids : List String)
    → Within xs ids
    → contains x ids ≡ false
    → contains x xs ≡ false
unfolding contains
not-Within x [] ids h out = refl
not-Within x (y ∷ xs) ids h out = elim (Bool-cases (str_eq y x)) [
  | inl same ↦
      let inside : contains x ids ≡ true =
        subst (λ t. contains t ids ≡ true) ((eq_iff y x).0 same) h.0 in
      cc
  | inr other ↦ rw other (not-Within x xs ids h.1 out)
]

-- the parts have nothing in common
apart_cons :
    (id : String) (xs f : List String)
    → contains id xs ≡ false
    → All (λ x. contains x f ≡ false) xs
    → All (λ x. contains x (id ∷ f) ≡ false) xs
unfolding contains
apart_cons id [] f out h = tt
apart_cons id (x ∷ xs) f out h = (
  ground (arith, h.0, out, eq_iff id x, eq_iff x id),
  apart_cons id xs f (ground (arith, out)) h.1,
)

distinct_cons :
    (id : String) (ids : List String)
    → is_distinct (id ∷ ids) ≡ true
    → (contains id ids ≡ false) × (is_distinct ids ≡ true)
unfolding is_distinct
distinct_cons id ids h = (ground arith, ground arith)

Split-apart :
    (ids s f : List String)
    → Split ids s f
    → is_distinct ids ≡ true
    → All (λ x. contains x f ≡ false) s
Split-apart ids s f split_end h = tt
Split-apart ids s f (to_success id ids' s' f' split) h =
    let (out, d) = distinct_cons id ids' h in
    (not-Within id f' ids' (Split-Within ids' s' f' split).1 out, Split-apart ids' s' f' split d)
Split-apart ids s f (to_failure id ids' s' f' split) h =
    let (out, d) = distinct_cons id ids' h in
    apart_cons id s' f' (not-Within id s' ids' (Split-Within ids' s' f' split).0 out)
      (Split-apart ids' s' f' split d)

keep-parts :
    (failed ids s f : List String)
    → Split ids s f
    → All (λ x. contains x failed ≡ false) s
    → Within f failed
    → (keep false failed ids ≡ s) × (keep true failed ids ≡ f)
unfolding keep
keep-parts failed ids s f split_end a b = (refl, refl)
keep-parts failed ids s f (to_success id ids' s' f' split) a b =
    let (k, l) = keep-parts failed ids' s' f' split a.1 b in
    (rw (a.0) (ap (λ xs. id ∷ xs) k), rw (a.0) l)
keep-parts failed ids s f (to_failure id ids' s' f' split) a b =
    let (k, l) = keep-parts failed ids' s' f' split a b.1 in
    (rw (b.0) k, rw (b.0) (ap (λ xs. id ∷ xs) l))

-- Of distinct identifiers, those among the failures and the others are the two parts.
pub Split-keep :
    (ids s f : List String)
    → Split ids s f
    → is_distinct ids ≡ true
    → (keep false f ids ≡ s) × (keep true f ids ≡ f)
Split-keep ids s f split h =
    keep-parts f ids s f split (Split-apart ids s f split h) (Within-refl f)

contains-append :
    (x : String) (xs ys : List String)
    → contains x xs ≡ false
    → contains x ys ≡ false
    → contains x (xs ++ ys) ≡ false
unfolding contains
contains-append x [] ys a b = b
contains-append x (y ∷ xs) ys a b = ground (arith, contains-append x xs ys, a, b)

contains_middle :
    (y id : String) (s f : List String)
    → contains y (s ++ f) ≡ false
    → str_eq id y ≡ false
    → contains y (s ++ id ∷ f) ≡ false
unfolding contains
contains_middle y id [] f h other = rw other h
contains_middle y id (x ∷ s) f h other = ground (arith, contains_middle y id s f, h, other)

-- the head is another one, and the rest has it neither
not_head :
    (id y : String) (ids : List String)
    → contains id (y ∷ ids) ≡ false
    → (str_eq id y ≡ false) × (contains id ids ≡ false)
unfolding contains
not_head id y ids h = (ground (arith, eq_iff id y, eq_iff y id), ground arith)

distinct_middle :
    (id : String) (s f : List String)
    → contains id (s ++ f) ≡ false
    → is_distinct (s ++ f) ≡ true
    → is_distinct (s ++ id ∷ f) ≡ true
unfolding is_distinct
distinct_middle id [] f out h = rw out h
distinct_middle id (y ∷ s) f out h =
    let (y_out, d) = distinct_cons y (s ++ f) h in
    let (other, id_out) = not_head id y (s ++ f) out in
    rw (contains_middle y id s f y_out other) (distinct_middle id s f id_out d)

-- The parts together have no identifier twice.
pub Split-distinct :
    (ids s f : List String) → Split ids s f → is_distinct ids ≡ true → is_distinct (s ++ f) ≡ true
unfolding is_distinct
Split-distinct ids s f split_end h = refl
Split-distinct ids s f (to_success id ids' s' f' split) h =
    let (out, d) = distinct_cons id ids' h in
    let (a, b) = Split-Within ids' s' f' split in
    rw (contains-append id s' f' (not-Within id s' ids' a out) (not-Within id f' ids' b out))
      (Split-distinct ids' s' f' split d)
Split-distinct ids s f (to_failure id ids' s' f' split) h =
    let (out, d) = distinct_cons id ids' h in
    let (a, b) = Split-Within ids' s' f' split in
    distinct_middle id s' f'
      (contains-append id s' f' (not-Within id s' ids' a out) (not-Within id f' ids' b out))
      (Split-distinct ids' s' f' split d)

Within-append : (xs ys ids : List String) → Within xs ids → Within ys ids → Within (xs ++ ys) ids
Within-append [] ys ids a b = b
Within-append (x ∷ xs) ys ids a b = (a.0, Within-append xs ys ids a.1 b)

pub all-Within : (xs ids : List String) → Within xs ids → all (λ x. contains x ids) xs ≡ true
all-Within [] ids h = refl
all-Within (x ∷ xs) ids h = rw (h.0) (all-Within xs ids h.1)

-- Each is one of the whole.
pub Split-known :
    (ids s f : List String) → Split ids s f → all (λ x. contains x ids) (s ++ f) ≡ true
Split-known ids s f split =
    let (a, b) = Split-Within ids s f split in all-Within (s ++ f) ids (Within-append s f ids a b)

-- The first identifiers, up to `id`.
pub prefix_take :
    (s later : List String) (id : String)
    → take (length (s ++ id ∷ [])) (s ++ id ∷ later) ≡ s ++ id ∷ []
prefix_take [] later id = refl
prefix_take (x ∷ s) later id = ap (λ xs. x ∷ xs) (prefix_take s later id)

prefix-Within : (s later : List String) (id : String) → Within (s ++ id ∷ []) (s ++ id ∷ later)
prefix-Within [] later id = (contains_self id later, tt)
prefix-Within (x ∷ s) later id =
    (contains_self x (s ++ id ∷ later), Within-cons x _ _ (prefix-Within s later id))

pub prefix_known :
    (s later : List String) (id : String)
    → all (λ x. contains x (s ++ id ∷ later)) (s ++ id ∷ []) ≡ true
prefix_known s later id = all-Within _ (s ++ id ∷ later) (prefix-Within s later id)

pub prefix_distinct :
    (s later : List String) (id : String)
    → is_distinct (s ++ id ∷ later) ≡ true
    → is_distinct (s ++ id ∷ []) ≡ true
unfolding is_distinct contains
prefix_distinct [] later id h = refl
prefix_distinct (x ∷ s) later id h =
    let (out, d) = distinct_cons x (s ++ id ∷ later) h in
    rw (not-Within x (s ++ id ∷ []) (s ++ id ∷ later) (prefix-Within s later id) out)
      (prefix_distinct s later id d)
