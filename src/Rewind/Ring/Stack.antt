-- ===== src/Rewind/Ring/Stack.antt =====
-- A ring is a stack that forgets its oldest entries.
use native.Mathlib.Nat.{mod-eq_of_lt, mod-eq-sub-mod}
use chippy.Prelude.{
  ℕ, zero, suc, ◌+◌, ◌-◌, ◌%◌, ◌<◌, ◌≤◌, ◌≡◌, refl, sym, ap, ◌∙◌, List, [], ◌∷◌, false, ltb, ◌==◌,
  ==_iff, if◌then◌else◌, arith, inl, inr, Bool-cases,
}
use chippy.Rewind.Ring.{Ring, put_slot}

-- The indices are in range.
pub record IsRing {ℓ} {A : Type ℓ} (r : Ring A) : Type 0 where
  pub room : 0 < r.cap
  pub head_lt : r.head < r.cap
  pub size_le : r.size ≤ r.cap

pub wrap : (x cap : ℕ) → 0 < cap → x < cap + cap → x % cap ≡ (if ltb x cap then x else x - cap)
wrap x cap room lt = elim (Bool-cases (ltb x cap)) [
  | inl small ↦
      mod-eq_of_lt (ground (arith, small)) ∙ sym (ap (λ b. if b then x else x - cap) small)
  | inr big ↦
      mod-eq-sub-mod (ground (arith, big))
      ∙ mod-eq_of_lt (ground (arith, big))
      ∙ sym (ap (λ b. if b then x else x - cap) big)
]

-- The slot of the `i`-th newest entry.
abbrev pub behind : ℕ → ℕ → ℕ → ℕ
behind cap head i = (head + cap - 1 - i) % cap

pub behind-eq :
    (cap head i : ℕ)
    → head < cap
    → i < cap
    → behind cap head i ≡ (if ltb i head then head - 1 - i else head + cap - 1 - i)
behind-eq cap head i lh li =
    ground (arith, wrap (head + cap - 1 - i) cap (omega arith) (omega arith))

next-eq : (cap head : ℕ) → head < cap → (head + 1) % cap ≡ (if head + 1 == cap then 0 else head + 1)
next-eq cap head lh = ground (arith, wrap (head + 1) cap (omega arith) (omega arith))

pub next-lt : (cap head : ℕ) → head < cap → (head + 1) % cap < cap
next-lt cap head lh = ground (arith, next-eq cap head lh)

behind-next :
    (cap head i : ℕ)
    → head < cap
    → i + 1 < cap
    → behind cap ((head + 1) % cap) (i + 1) ≡ behind cap head i
behind-next cap head i lh li =
    let e = next-eq cap head lh in
    let lt = next-lt cap head lh in
    ground (
      arith,
      e,
      behind-eq cap ((head + 1) % cap) (i + 1) lt li,
      behind-eq cap head i lh (omega arith),
    )

behind-next_zero : (cap head : ℕ) → head < cap → behind cap ((head + 1) % cap) 0 ≡ head
behind-next_zero cap head lh =
    let e = next-eq cap head lh in
    let lt = next-lt cap head lh in
    ground (arith, e, behind-eq cap ((head + 1) % cap) 0 lt (omega arith))

behind-head : (cap head i : ℕ) → head < cap → i + 1 < cap → (behind cap head i == head) ≡ false
behind-head cap head i lh li = ground (arith, behind-eq cap head i lh (omega arith))

module _ {ℓ} {A : Type ℓ} where
  -- The values of `f` at `n` numbers from `i` on.
  unfoldable pub tabulate : (ℕ → A) → ℕ → ℕ → List A
  tabulate f i zero = []
  tabulate f i (suc n) = f i ∷ tabulate f (i + 1) n

  pub tabulate-shift :
      (f g : ℕ → A) (d i n bound : ℕ)
      → i + n ≤ bound
      → ((j : ℕ) → j < bound → f (j + d) ≡ g j)
      → tabulate f (i + d) n ≡ tabulate g i n
  unfolding tabulate
  tabulate-shift f g d i zero bound h same = refl
  tabulate-shift f g d i (suc n) bound h same =
      let head : f (i + d) ≡ g i = same i (omega arith) in
      let rest = tabulate-shift f g d (i + 1) n bound (omega arith) same in
      let e : i + 1 + d ≡ i + d + 1 = omega arith in
      ap (λ x. x ∷ tabulate f (i + d + 1) n) head
      ∙ ap (λ l. g i ∷ l) (ap (λ j. tabulate f j n) (sym e) ∙ rest)

  -- The newest entries, in front.
  unfoldable pub contents : Ring A → List A
  unfolding tabulate
  contents r = tabulate (λ i. r.buf (behind r.cap r.head i)) 0 r.size

  unfoldable pub take : ℕ → List A → List A
  take zero l = []
  take (suc n) [] = []
  take (suc n) (x ∷ l) = x ∷ take n l

  take-more : (f : ℕ → A) (i n m : ℕ) → n ≤ m → take m (tabulate f i n) ≡ tabulate f i n
  unfolding take tabulate
  take-more f i zero zero h = refl
  take-more f i zero (suc m) h = refl
  take-more f i (suc n) zero h = absurd (omega arith)
  take-more f i (suc n) (suc m) h = ap (λ l. f i ∷ l) (take-more f (i + 1) n m (omega arith))

  take-fewer : (f : ℕ → A) (i n m : ℕ) → m ≤ n → take m (tabulate f i n) ≡ tabulate f i m
  unfolding take tabulate
  take-fewer f i n zero h = refl
  take-fewer f i zero (suc m) h = absurd (omega arith)
  take-fewer f i (suc n) (suc m) h = ap (λ l. f i ∷ l) (take-fewer f (i + 1) n m (omega arith))

  module _ (buf : ℕ → A) (head c : ℕ) (s : A) (lh : head < suc c) where
    unfoldable pub old : ℕ → A
    old i = buf (behind (suc c) head i)

    unfoldable pub new : ℕ → A
    unfolding put_slot
    new i = put_slot buf head s (behind (suc c) ((head + 1) % suc c) i)

    new-front : new 0 ≡ s
    unfolding new
    new-front =
        ap (λ b. if b then s else buf (behind (suc c) ((head + 1) % suc c) 0))
          ((==_iff _ _).1 (behind-next_zero (suc c) head lh))

    new-rest : (j : ℕ) → j < c → new (j + 1) ≡ old j
    unfolding new old put_slot
    new-rest j lt =
        let e = behind-next (suc c) head j lh (omega arith) in
        ap (put_slot buf head s) e
        ∙ ap (λ b. if b then s else old j) (behind-head (suc c) head j lh (omega arith))

    push-tabulate : (n : ℕ) → n ≤ c → tabulate new 0 (suc n) ≡ s ∷ tabulate old 0 n
    unfolding tabulate
    push-tabulate n le =
        ap (λ x. x ∷ tabulate new 1 n) new-front
        ∙ ap (λ l. s ∷ l) (tabulate-shift new old 1 0 n c (omega arith) new-rest)

    pub push-list :
        (size : ℕ)
        → size ≤ suc c
        → tabulate new 0 (if ltb size (suc c) then size + 1 else size)
          ≡ s ∷ take c (tabulate old 0 size)
    push-list size le = elim (Bool-cases (ltb size (suc c))) [
      | inl free ↦
          ap (λ b. tabulate new 0 (if b then size + 1 else size)) free
          ∙ ap (tabulate new 0) (omega arith)
          ∙ push-tabulate size (ground (arith, free))
          ∙ ap (λ l. s ∷ l) (sym (take-more old 0 size c (ground (arith, free))))
      | inr full ↦
          let e : size ≡ suc c = ground (arith, full) in
          ap (λ b. tabulate new 0 (if b then size + 1 else size)) full
          ∙ ap (tabulate new 0) e
          ∙ push-tabulate c (omega arith)
          ∙ ap (λ l. s ∷ l) (sym (take-fewer old 0 size c (omega (arith, e))))
    ]
