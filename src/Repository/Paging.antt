-- ===== src/Repository/Paging.antt =====
-- Pages of a log, and the lists of numbers, of api/internal/repository/memory.go.
use opendesk_remote.Prelude.{
  ℕ, zero, suc, ◌+◌, ◌-◌, ◌≤◌, ◌≡◌, refl, sym, ap, ◌∙◌, ℤ, pos, negsuc, Bool, false, ◌||◌, ◌&&◌,
  not, Bool-cases, inl, inr, int_eq_iff, List, [], ◌∷◌, ◌++◌, Option, none, some, Time, length,
  take, drop, contains, is_pos, int_lt, ltb, leb, ◌==◌, int_has_eq, if◌then◌else◌, arith,
}

unfoldable pub effective_limit : ℤ → ℕ
effective_limit (negsuc n) = 500
effective_limit (pos n) = if leb n 0 || ltb 500 n then 500 else n

unfoldable pub effective_offset : ℤ → ℕ
effective_offset (negsuc n) = 0
effective_offset (pos n) = n

-- items[start:end], with both bounds in range
unfoldable pub slice {ℓ} : {A : Type ℓ} → List A → ℕ → ℕ → List A
slice items start end = take (end - start) (drop start items)

unfoldable pub paginate {ℓ} : {A : Type ℓ} → List A → ℤ → ℤ → List A
unfolding effective_limit effective_offset slice
paginate items offset limit =
    let start = effective_offset offset in
    let end = start + effective_limit limit in
    if leb (length items) start
    then []
    else slice items start (if ltb (length items) end then length items else end)

before : Option Time → Time → Bool
before none value = false
before (some from) value = ltb value from

after : Option Time → Time → Bool
after none value = false
after (some to) value = ltb to value

unfoldable pub time_in_range : Time → Option Time → Option Time → Bool
unfolding before after
time_in_range value from to = not (before from value) && not (after to value)

-- The map of the numbers seen is the list of those kept.
collect_ids : List ℤ → List ℤ → List ℤ
collect_ids out [] = out
collect_ids out (id ∷ ids) =
    if not (is_pos id) || contains out id
    then collect_ids out ids
    else collect_ids (out ++ (id ∷ [])) ids

unfoldable pub positive_ids : List ℤ → List ℤ
unfolding collect_ids
positive_ids ids = collect_ids [] ids

effective_limit_bounds : (limit : ℤ) → effective_limit limit ≤ 500
unfolding effective_limit
effective_limit_bounds (pos n) = ground arith
effective_limit_bounds (negsuc n) = ground arith

-- A number, where one below 0 counts as 0.
abbrev pub to_ℕ : ℤ → ℕ
to_ℕ (pos n) = n
to_ℕ (negsuc n) = 0

effective_limit_lem :
    (limit : ℤ)
    → effective_limit limit
      ≡ (if int_lt (pos 0) limit && int_lt limit (pos 501) then to_ℕ limit else 500)
unfolding effective_limit
effective_limit_lem (pos n) = ground arith
effective_limit_lem (negsuc n) = ground arith

effective_offset_lem : (offset : ℤ) → effective_offset offset ≡ to_ℕ offset
unfolding effective_offset
effective_offset_lem (pos n) = refl
effective_offset_lem (negsuc n) = refl

module _ {ℓ} {A : Type ℓ} where
  drop_all : (n : ℕ) (xs : List A) → length xs ≤ n → drop n xs ≡ []
  drop_all zero [] h = refl
  drop_all (suc n) [] h = refl
  drop_all zero (x ∷ xs) h = absurd (omega (arith, h))
  drop_all (suc n) (x ∷ xs) h = drop_all n xs (omega (arith, h))

  take_all : (n : ℕ) (xs : List A) → length xs ≤ n → take n xs ≡ xs
  take_all zero [] h = refl
  take_all (suc n) [] h = refl
  take_all zero (x ∷ xs) h = absurd (omega (arith, h))
  take_all (suc n) (x ∷ xs) h = ap (λ ys. x ∷ ys) (take_all n xs (omega (arith, h)))

  length-drop : (n : ℕ) (xs : List A) → length (drop n xs) ≡ length xs - n
  length-drop zero xs = omega arith
  length-drop (suc n) [] = omega arith
  length-drop (suc n) (x ∷ xs) = omega (arith, length-drop n xs)

  length-take : (n : ℕ) (xs : List A) → length (take n xs) ≤ n
  length-take zero xs = omega arith
  length-take (suc n) [] = omega arith
  length-take (suc n) (x ∷ xs) = omega (arith, length-take n xs)

  slice-end :
      (n k : ℕ) (items : List A)
      → slice items n (if ltb (length items) (n + k) then length items else n + k)
        ≡ take k (drop n items)
  unfolding slice
  slice-end n k items = elim (Bool-cases (ltb (length items) (n + k))) [
    | inl short ↦
        ap (λ m. take m (drop n items)) (ground (arith, short))
        ∙ (take_all (length items - n) (drop n items) (omega (arith, length-drop n items))
            ∙ sym (take_all k (drop n items) (ground (arith, short, length-drop n items))))
    | inr long ↦ ap (λ m. take m (drop n items)) (ground (arith, long))
  ]

  paginate-take :
      (items : List A) (offset limit : ℤ)
      → paginate items offset limit
        ≡ take (effective_limit limit) (drop (effective_offset offset) items)
  unfolding paginate
  paginate-take items offset limit =
      elim (Bool-cases (leb (length items) (effective_offset offset))) [
        | inl out ↦
            rw (out, drop_all (effective_offset offset) items (ground (arith, out)))
              (sym (take_all (effective_limit limit) [] (omega arith)))
        | inr inside ↦ rw inside (slice-end (effective_offset offset) (effective_limit limit) items)
      ]

  -- A page is the items after the offset, up to the limit, where a negative offset counts as 0 and
  -- a limit that is not between 1 and 500 as 500; it has at most 500 items.
  pub paginate_page :
      (items : List A) (offset limit : ℤ)
      → (paginate items offset limit
          ≡ take
              (if int_lt (pos 0) limit && int_lt limit (pos 501) then to_ℕ limit else 500)
              (drop (to_ℕ offset) items))
        × (length (paginate items offset limit) ≤ 500)
  paginate_page items offset limit =
      let same =
        paginate-take items offset limit
        ∙ (ap (λ n. take (effective_limit limit) (drop n items)) (effective_offset_lem offset)
            ∙ ap (λ n. take n (drop (to_ℕ offset) items)) (effective_limit_lem limit)) in
      (
        same,
        omega (
          arith,
          effective_limit_bounds limit,
          length-take (effective_limit limit) (drop (effective_offset offset) items),
          ap length (paginate-take items offset limit),
        ),
      )

abbrev pub IsDistinct : List ℤ → Type 0
IsDistinct [] = Unit
IsDistinct (x ∷ xs) = (contains xs x ≡ false) × IsDistinct xs

contains-append :
    (xs : List ℤ) (y x : ℤ) → contains (xs ++ (y ∷ [])) x ≡ (contains xs x || (y == x))
unfolding contains
contains-append [] y x = ground arith
contains-append (z ∷ xs) y x = ground (arith, contains-append xs y x)

append-IsDistinct :
    (xs : List ℤ) (y : ℤ) → IsDistinct xs → contains xs y ≡ false → IsDistinct (xs ++ (y ∷ []))
unfolding contains
append-IsDistinct [] y d n = (refl, tt)
append-IsDistinct (z ∷ xs) y d n = (
  ground (arith, contains-append xs y z, int_eq_iff y z, int_eq_iff z y),
  append-IsDistinct xs y d.1 (ground (arith, int_eq_iff z y)),
)

collect_ids-IsDistinct : (out ids : List ℤ) → IsDistinct out → IsDistinct (collect_ids out ids)
unfolding collect_ids
collect_ids-IsDistinct out [] d = d
collect_ids-IsDistinct out (id ∷ ids) d = elim (Bool-cases (not (is_pos id) || contains out id)) [
  | inl skip ↦ rw skip (collect_ids-IsDistinct out ids d)
  | inr keeps ↦ rw keeps (
      collect_ids-IsDistinct (out ++ (id ∷ [])) ids
        (append-IsDistinct out id d (ground (arith, keeps))))
]

contains-collect_ids :
    (out ids : List ℤ) (x : ℤ)
    → contains (collect_ids out ids) x ≡ (contains out x || (is_pos x && contains ids x))
unfolding collect_ids contains
contains-collect_ids out [] x = ground arith
contains-collect_ids out (id ∷ ids) x = ground (
  arith,
  contains-collect_ids out ids x,
  contains-collect_ids (out ++ (id ∷ [])) ids x,
  contains-append out id x,
  int_eq_iff id x,
)

-- `positiveIDs` keeps exactly the positive numbers of a list, each once.
pub positive_ids_lem :
    (ids : List ℤ)
    → IsDistinct (positive_ids ids)
      × ((x : ℤ) → contains (positive_ids ids) x ≡ (is_pos x && contains ids x))
unfolding positive_ids contains
positive_ids_lem ids =
    (collect_ids-IsDistinct [] ids tt, λ x. contains-collect_ids [] ids x ∙ ground arith)
