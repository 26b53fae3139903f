-- ===== src/Util/Trim.antt =====
-- `ltrim`, `rtrim` and `trim`.
use laser_control.Common.{
  ℕ, suc, ◌≡◌, refl, ap, sym, ◌∙◌, inl, inr, Bool, true, false, ◌||◌, Option, none, some, [], ◌∷◌,
  ◌++◌, arith, Bytes, Bool-cases, Option-cases, ◌==◌, if◌then◌else◌, take, drop, All,
}
use mathlib.Core.Option

-- The bytes of `WHITESPACE`, " \n\r\t\f\v".
abbrev pub whitespace : Bytes
whitespace = 32 ∷ 10 ∷ 13 ∷ 9 ∷ 12 ∷ 11 ∷ []

abbrev contains : Bytes → ℕ → Bool
contains [] c = false
contains (w ∷ ws) c = c == w || contains ws c

-- `s.find_first_not_of(set)` and `s.find_last_not_of(set)`.
find_first_not_of : Bytes → Bytes → Option ℕ
find_first_not_of set [] = none
find_first_not_of set (c ∷ s) =
    if contains set c then Option.map suc (find_first_not_of set s) else some 0

find_last_not_of : Bytes → Bytes → Option ℕ
find_last_not_of set [] = none
find_last_not_of set (c ∷ s) = elim (find_last_not_of set s) [
  | some i ↦ some (suc i)
  | none ↦ if contains set c then none else some 0
]

unfoldable pub ltrim : Bytes → Bytes
unfolding find_first_not_of
ltrim s = elim (find_first_not_of whitespace s) [ none ↦ [] | some start ↦ drop start s ]

unfoldable pub rtrim : Bytes → Bytes
unfolding find_last_not_of
rtrim s = elim (find_last_not_of whitespace s) [ none ↦ [] | some end ↦ take (suc end) s ]

unfoldable pub trim : Bytes → Bytes
unfolding ltrim rtrim
trim s = rtrim (ltrim s)

abbrev pub IsWhite : ℕ → Type 0
IsWhite c = contains whitespace c ≡ true

abbrev pub HeadClean : Bytes → Type 0
HeadClean [] = Unit
HeadClean (c ∷ s) = contains whitespace c ≡ false

abbrev pub LastClean : Bytes → Type 0
LastClean [] = Unit
LastClean (c ∷ []) = contains whitespace c ≡ false
LastClean (c ∷ d ∷ s) = LastClean (d ∷ s)

ltrim_split :
    (s : Bytes) → (pre : Bytes) × (s ≡ pre ++ ltrim s) × All IsWhite pre × HeadClean (ltrim s)
unfolding ltrim
ltrim_split [] = ([], refl, tt, tt)
ltrim_split (c ∷ s) = elim (Bool-cases (contains whitespace c)) [
  | inl white ↦
      let (pre, e, all, head) = ltrim_split s in
      let step : ltrim (c ∷ s) ≡ ltrim s = ground arith in
      (c ∷ pre, rw step (ap (λ t. c ∷ t) e), (white, all), rw step head)
  | inr clean ↦ let step : ltrim (c ∷ s) ≡ c ∷ s = ground arith in ([], sym step, tt, rw step clean)
]

find_last_none : (s : Bytes) → find_last_not_of whitespace s ≡ none → All IsWhite s
unfolding find_last_not_of
find_last_none [] h = tt
find_last_none (c ∷ s) h = ground (arith, find_last_none s)

rtrim_found :
    (d : ℕ) (s : Bytes) (i : ℕ)
    → find_last_not_of whitespace (d ∷ s) ≡ some i
    → rtrim (d ∷ s) ≡ d ∷ take i s
unfolding rtrim
rtrim_found d s i e = rw (e, rtrim)

LastClean-cons :
    (c : ℕ) (s : Bytes) (i : ℕ)
    → find_last_not_of whitespace s ≡ some i
    → LastClean (rtrim s)
    → LastClean (c ∷ rtrim s)
LastClean-cons c [] i e last = unfold find_last_not_of in cc e
LastClean-cons c (d ∷ s) i e last = let cut = rtrim_found d s i e in rw cut (rw cut at last)

rtrim_split :
    (s : Bytes) → (post : Bytes) × (s ≡ rtrim s ++ post) × All IsWhite post × LastClean (rtrim s)
unfolding rtrim
rtrim_split [] = ([], refl, tt, tt)
rtrim_split (c ∷ s) = elim (Option-cases (find_last_not_of whitespace s)) [
  | inl e ↦ elim (Bool-cases (contains whitespace c)) [
    | inl white ↦
        let step : rtrim (c ∷ s) ≡ [] = ground arith in
        (c ∷ s, rw step refl, (white, find_last_none s e), rw step tt)
    | inr clean ↦
        let step : rtrim (c ∷ s) ≡ c ∷ [] = ground arith in
        (s, rw step refl, find_last_none s e, rw step clean)
  ]
  | inr (i, e) ↦
      let (post, cut, all, last) = rtrim_split s in
      let step : rtrim (c ∷ s) ≡ c ∷ rtrim s = ground arith in
      (post, rw step (ap (λ t. c ∷ t) cut), all, rw step (LastClean-cons c s i e last))
]

-- A clean head stays when the end is trimmed.
HeadClean-rtrim : (s : Bytes) → HeadClean s → HeadClean (rtrim s)
unfolding rtrim find_last_not_of
HeadClean-rtrim [] h = tt
HeadClean-rtrim (c ∷ s) h = ground arith

-- `trim` takes whitespace from both ends and nothing else: what it cuts is whitespace, and what
-- it leaves neither begins nor ends with any.
pub trim_lem :
    (s : Bytes)
    → (pre : Bytes) × (post : Bytes) × (s ≡ pre ++ (trim s ++ post))
      × All IsWhite pre
      × All IsWhite post
      × HeadClean (trim s)
      × LastClean (trim s)
unfolding trim
trim_lem s =
    let (pre, e, white, head) = ltrim_split s in
    let (post, e', white', last) = rtrim_split (ltrim s) in
    (pre, post, e ∙ ap (λ t. pre ++ t) e', white, white', HeadClean-rtrim (ltrim s) head, last)
