-- ===== src/Prelude/Lists.antt =====
-- Vectors read as Rust's iterators read them: `find`, `any`, `all`, `filter`, and the update of
-- the first match that `iter_mut().find(..)` and `position` with an index make.
use Prim.Native.Nat.{ℕ, zero, suc, ◌+◌, ◌≤◌}
use mathlib.Core.Path.{◌≡◌, refl, ap}
use mathlib.Core.Logic.{inl, inr}
use mathlib.Core.Bool.{Bool, true, false, ◌&&◌, ◌||◌}
use mathlib.Core.List.{List, [], ◌∷◌, ◌++◌, map}
use mathlib.Core.Option.{Option, none, some}
use native.Mathlib.Omega.{arith}
use frank.Prelude.Tests.{◌==◌, if◌then◌else◌, Bool-cases}

module _ {ℓ} {A : Type ℓ} where
  abbrev pub length : List A → ℕ
  length [] = 0
  length (x ∷ xs) = suc (length xs)

  abbrev pub take : ℕ → List A → List A
  take zero xs = []
  take (suc n) [] = []
  take (suc n) (x ∷ xs) = x ∷ take n xs

  abbrev pub any : (A → Bool) → List A → Bool
  any p [] = false
  any p (x ∷ xs) = p x || any p xs

  abbrev pub all : (A → Bool) → List A → Bool
  all p [] = true
  all p (x ∷ xs) = p x && all p xs

  abbrev pub find : (A → Bool) → List A → Option A
  find p [] = none
  find p (x ∷ xs) = if p x then some x else find p xs

  abbrev pub keep : (A → Bool) → List A → List A
  keep p [] = []
  keep p (x ∷ xs) = let rest = keep p xs in if p x then x ∷ rest else rest

  -- Change the first element that passes the test.
  abbrev pub modify_first : (A → Bool) → (A → A) → List A → List A
  modify_first p f [] = []
  modify_first p f (x ∷ xs) = if p x then f x ∷ xs else x ∷ modify_first p f xs

  pub length-append : (xs ys : List A) → length (xs ++ ys) ≡ length xs + length ys
  length-append [] ys = omega arith
  length-append (x ∷ xs) ys = omega (arith, length-append xs ys)

  pub length-take-le : (n : ℕ) (xs : List A) → length (take n xs) ≤ n
  length-take-le zero xs = omega arith
  length-take-le (suc n) [] = omega arith
  length-take-le (suc n) (x ∷ xs) = omega (arith, length-take-le n xs)

  pub length-keep-le : (p : A → Bool) (xs : List A) → length (keep p xs) ≤ length xs
  length-keep-le p [] = omega arith
  length-keep-le p (x ∷ xs) = ground (arith, length-keep-le p xs)

  pub length-modify_first :
      (p : A → Bool) (f : A → A) (xs : List A) → length (modify_first p f xs) ≡ length xs
  length-modify_first p f [] = refl
  length-modify_first p f (x ∷ xs) = ground (arith, length-modify_first p f xs)

  -- Holds of every element; a predicate by recursion.
  abbrev pub All {κ} : (A → Type κ) → List A → Type κ
  All P [] = Unit
  All P (x ∷ xs) = P x × All P xs

  -- Is an element, with its place.
  pub data In (a : A) : List A → Type ℓ where
    here : {xs : List A} → In a (a ∷ xs)
    there : {x : A} {xs : List A} → In a xs → In a (x ∷ xs)

  pub All-In {κ} : (P : A → Type κ) {a : A} (xs : List A) → All P xs → In a xs → P a
  All-In P [] h m = elim m [ ]
  All-In P (_ ∷ xs) h here = h.0
  All-In P (x ∷ xs) h (there m) = All-In P xs h.1 m

  pub find-some : (p : A → Bool) (xs : List A) (a : A) → find p xs ≡ some a → (p a ≡ true) × In a xs
  find-some p [] a e = elim (none_ne_some e) [ ]
    where
      none_ne_some : none ≡ some a → ⊥
      none_ne_some e = cc
  find-some p (x ∷ xs) a e = elim (Bool-cases (p x)) [
    | inl t ↦ found t (rw t at e)
    | inr f ↦ later (find-some p xs a (rw f at e))
  ]
    where
      found : p x ≡ true → some x ≡ some a → (p a ≡ true) × In a (x ∷ xs)
      found t q = let r : x ≡ a = cc in (rw (← r) t, rw (← r) here)

      later : (p a ≡ true) × In a xs → (p a ≡ true) × In a (x ∷ xs)
      later (h, m) = (h, there m)

  pub any-In : (p : A → Bool) (xs : List A) → any p xs ≡ true → (a : A) × (In a xs) × (p a ≡ true)
  any-In p [] h = elim (false_ne_true h) [ ]
    where
      false_ne_true : false ≡ true → ⊥
      false_ne_true h = cc
  any-In p (x ∷ xs) h = elim (Bool-cases (p x)) [
    | inl t ↦ (x, here, t)
    | inr f ↦ later (any-In p xs (ground arith))
  ]
    where
      later : (a : A) × (In a xs) × (p a ≡ true) → (a : A) × (In a (x ∷ xs)) × (p a ≡ true)
      later (a, m, e) = (a, there m, e)

  pub In-any : (p : A → Bool) (xs : List A) (a : A) → In a xs → p a ≡ true → any p xs ≡ true
  In-any p [] a m e = elim m [ ]
  In-any p (_ ∷ xs) a here e = ground arith
  In-any p (x ∷ xs) a (there m) e = ground (arith, In-any p xs a m e)

  pub all-In : (p : A → Bool) (xs : List A) (a : A) → all p xs ≡ true → In a xs → p a ≡ true
  all-In p [] a h m = elim m [ ]
  all-In p (_ ∷ xs) a h here = ground arith
  all-In p (x ∷ xs) a h (there m) = all-In p xs a (ground arith) m

  pub In-all : (p : A → Bool) (xs : List A) → ((a : A) → In a xs → p a ≡ true) → all p xs ≡ true
  In-all p [] h = refl
  In-all p (x ∷ xs) h = ground (arith, h x here, In-all p xs (λ a m. h a (there m)))

abbrev pub contains : List ℕ → ℕ → Bool
contains xs a = any (λ x. x == a) xs

module _ {ℓ κ} {A : Type ℓ} {B : Type κ} where
  abbrev pub find_map : (A → Option B) → List A → Option B
  find_map f [] = none
  find_map f (x ∷ xs) = elim (f x) [ some b ↦ some b | none ↦ find_map f xs ]

  pub length-map : (xs : List A) (f : A → B) → length (map f xs) ≡ length xs
  length-map [] f = refl
  length-map (x ∷ xs) f = ap suc (length-map xs f)

  pub In-map : (f : A → B) (xs : List A) (a : A) → In a xs → In (f a) (map f xs)
  In-map f [] a m = elim m [ ]
  In-map f (_ ∷ xs) a here = here
  In-map f (x ∷ xs) a (there m) = there (In-map f xs a m)

  pub map-In : (f : A → B) (xs : List A) (b : B) → In b (map f xs) → (a : A) × In a xs × (f a ≡ b)
  map-In f [] b m = elim m [ ]
  map-In f (x ∷ xs) _ here = (x, here, refl)
  map-In f (x ∷ xs) b (there m) = let (a, n, e) = map-In f xs b m in (a, there n, e)

module _ {ℓ κ} {A : Type ℓ} {B : Type κ} where
  pub map_ext : (f g : A → B) (xs : List A) → ((a : A) → In a xs → f a ≡ g a) → map f xs ≡ map g xs
  map_ext f g [] h = refl
  map_ext f g (x ∷ xs) h = cc (h x here, map_ext f g xs (λ a m. h a (there m)))

module _ {ℓ} {A : Type ℓ} where
  pub map-map_self : (f g : A → A) (xs : List A) → map g (map f xs) ≡ map (λ x. g (f x)) xs
  map-map_self f g [] = refl
  map-map_self f g (x ∷ xs) = cc (map-map_self f g xs)

  pub map_same : (f : A → A) (xs : List A) → ((a : A) → f a ≡ a) → map f xs ≡ xs
  map_same f [] h = refl
  map_same f (x ∷ xs) h = cc (h x, map_same f xs h)

  -- The update of the first match, where the match is known.
  pub modify_first_found :
      (p : A → Bool) (f g : A → A) (xs : List A) (a : A)
      → find p xs ≡ some a
      → f a ≡ g a
      → modify_first p f xs ≡ modify_first p g xs
  modify_first_found p f g [] a e h = refl
  modify_first_found p f g (x ∷ xs) a e h = ground (arith, modify_first_found p f g xs a)

  pub modify_first_same :
      (p : A → Bool) (f : A → A) (xs : List A) (a : A)
      → find p xs ≡ some a
      → f a ≡ a
      → modify_first p f xs ≡ xs
  modify_first_same p f [] a e h = refl
  modify_first_same p f (x ∷ xs) a e h = ground (arith, modify_first_same p f xs a)

  pub modify_first-none :
      (p : A → Bool) (f : A → A) (xs : List A) → find p xs ≡ none → modify_first p f xs ≡ xs
  modify_first-none p f [] e = refl
  modify_first-none p f (x ∷ xs) e = ground (arith, modify_first-none p f xs)

-- `==` of two lists of identifiers.
abbrev pub list_eq : List ℕ → List ℕ → Bool
list_eq [] [] = true
list_eq [] (b ∷ ys) = false
list_eq (a ∷ xs) [] = false
list_eq (a ∷ xs) (b ∷ ys) = a == b && list_eq xs ys
