-- ===== src/Rewind/Ring/Nearest.antt =====
-- Nearest on the list of the keyframes held.
use chippy.Prelude.{
  ℕ, zero, suc, ◌+◌, ◌-◌, ◌%◌, ◌<◌, ◌≤◌, ◌≡◌, refl, ap, Option, none, some, leb, if-elim, inl, inr,
  Bool-cases, ==_iff, ◌==◌, subst, arith,
}
use chippy.Rewind.Ring.{Ring, Keyframe, nearest, nearest_from}

-- The `i`-th newest keyframe.
abbrev pub entry : Ring Keyframe → ℕ → Keyframe
entry r i = r.buf ((r.head + r.cap - 1 - i) % r.cap)

-- Keyframes are pushed in ascending order of their steps.
pub record IsAscending (r : Ring Keyframe) : Type 0 where
  pub older : (i j : ℕ) → i ≤ j → j < r.size → (entry r j).step ≤ (entry r i).step

-- What the answer says of the entries from the `i`-th newest on, `n` in number.
unfoldable pub IsLatest : ℕ → Ring Keyframe → ℕ → ℕ → Option Keyframe → Type 0
IsLatest target r i n none = (j : ℕ) → i ≤ j → j < i + n → target < (entry r j).step
IsLatest target r i n (some k) =
    (j : ℕ) × (i ≤ j)
    × (j < i + n)
    × (entry r j ≡ k)
    × (k.step ≤ target)
    × ((m : ℕ) → i ≤ m → m < i + n → (entry r m).step ≤ target → (entry r m).step ≤ k.step)

later :
    (target : ℕ) (r : Ring Keyframe) (i n : ℕ) (o : Option Keyframe)
    → target < (entry r i).step
    → IsLatest target r (i + 1) n o
    → IsLatest target r i (suc n) o
unfolding IsLatest
later target r i n none lt h = λ j le small. elim (Bool-cases (i == j)) [
  | inl same ↦ subst (λ m. target < (entry r m).step) ((==_iff i j).0 same) lt
  | inr other ↦ h j (ground (arith, le, other)) (omega (arith, small))
]
later target r i n (some k) lt (j, le, small, e, at_most, best) = (
  j,
  omega (arith, le),
  omega (arith, small),
  e,
  at_most,
  λ m le' small' most. elim (Bool-cases (i == m)) [
    | inl same ↦ absurd (omega (arith, lt, most, ap (λ m. (entry r m).step) ((==_iff i m).0 same)))
    | inr other ↦ best m (ground (arith, le', other)) (omega (arith, small')) most
  ],
)

nearest_from-IsLatest :
    (target : ℕ) (r : Ring Keyframe) (i n : ℕ)
    → IsAscending r
    → i + n ≤ r.size
    → IsLatest target r i n (nearest_from target r i n)
unfolding nearest_from IsLatest
nearest_from-IsLatest target r i zero up h = λ j le lt. absurd (omega (arith, le, lt))
nearest_from-IsLatest target r i (suc n) up h =
    if-elim (IsLatest target r i (suc n)) (leb (entry r i).step target) _ _
      (λ found. (
        i,
        omega arith,
        omega arith,
        refl,
        ground (arith, found),
        λ m le lt most. up.older i m le (omega (arith, lt, h)),
      ))
      λ missed.
        later target r i n _ (ground (arith, missed))
          (nearest_from-IsLatest target r (i + 1) n up (omega (arith, h)))

-- On keyframes pushed in ascending order, Nearest returns one that is held and not newer than
-- the target, and no other of these is later; it returns nothing only if all are newer.
pub nearest-IsLatest :
    (target : ℕ) (r : Ring Keyframe) → IsAscending r → IsLatest target r 0 r.size (nearest target r)
unfolding nearest
nearest-IsLatest target r up = nearest_from-IsLatest target r 0 r.size up (omega arith)
