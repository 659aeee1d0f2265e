-- ===== src/Cpu/Lines/Wired.antt =====
-- The IRQ line is the wired OR of its sources.
use text.Mathlib.Text.{◌==◌ as str_eq}
use text.Mathlib.TextEquality.{eq_iff}
use chippy.Prelude.{
  Bool, true, false, not, ◌&&◌, ◌||◌, List, [], ◌∷◌, String, ◌≡◌, refl, sym, ap, ◌∙◌, ◌↔◌,
  if◌then◌else◌, Bool-cases, inl, inr, arith,
}
use chippy.Cpu.State.{Lines}
use chippy.Cpu.Lines.{has_source, delete, is_empty, assert_irq_source, clear_irq_source}

-- What a device does to the line.
pub data IrqEvent : Type 0 where
  raise release : String → IrqEvent

unfoldable pub apply : IrqEvent → Lines → Lines
unfolding assert_irq_source clear_irq_source
apply (raise s) l = assert_irq_source s l
apply (release s) l = clear_irq_source s l

-- The lines after a history, whose newest event is in front.
unfoldable pub after : List IrqEvent → Lines → Lines
unfolding apply
after [] l = l
after (e ∷ h) l = apply e (after h l)

-- The newest event of the source raised it.
unfoldable pub is_raised : List IrqEvent → String → Bool
is_raised [] s = false
is_raised (raise t ∷ h) s = str_eq t s || is_raised h s
is_raised (release t ∷ h) s = not (str_eq t s) && is_raised h s

pub str_eq_refl : (s : String) → str_eq s s ≡ true
str_eq_refl s = (eq_iff s s).1 refl

pub has_source-delete :
    (l : List String) (s u : String)
    → has_source (delete l s) u ≡ (not (str_eq s u) && has_source l u)
unfolding has_source delete
has_source-delete [] s u = ground arith
has_source-delete (t ∷ l) s u =
    let rest = has_source-delete l s u in
    elim (Bool-cases (str_eq t s)) [
      | inl same ↦
          let e : str_eq t u ≡ str_eq s u = ap (λ r. str_eq r u) ((eq_iff t s).0 same) in
          ground (arith, rest, e, same)
      | inr other ↦ elim (Bool-cases (str_eq s u)) [
        | inl same ↦
            let e : str_eq t s ≡ str_eq t u = ap (str_eq t) ((eq_iff s u).0 same) in
            ground (arith, rest, e, same, other)
        | inr other' ↦ ground (arith, rest, other, other')
      ]
    ]

-- A source that is present already is not added again.
pub has_source-add :
    (l : List String) (s u : String)
    → has_source (if has_source l s then l else s ∷ l) u ≡ (str_eq s u || has_source l u)
unfolding has_source
has_source-add l s u = elim (Bool-cases (has_source l s)) [
  | inl here ↦ elim (Bool-cases (str_eq s u)) [
    | inl same ↦
        let e : has_source l s ≡ has_source l u = ap (has_source l) ((eq_iff s u).0 same) in
        ground (arith, here, same, e)
    | inr other ↦ ground (arith, here, other)
  ]
  | inr gone ↦ ground (arith, gone)
]

-- The sources held after a history are those that it leaves raised.
has_source-is_raised :
    (h : List IrqEvent) (l : Lines) (s : String)
    → l.irq_sources ≡ []
    → has_source (after h l).irq_sources s ≡ is_raised h s
unfolding after is_raised has_source assert_irq_source clear_irq_source
has_source-is_raised [] l s quiet = ap (λ r. has_source r s) quiet
has_source-is_raised (raise t ∷ h) l s quiet =
    has_source-add (after h l).irq_sources t s
    ∙ ap (λ b. str_eq t s || b) (has_source-is_raised h l s quiet)
has_source-is_raised (release t ∷ h) l s quiet =
    has_source-delete (after h l).irq_sources t s
    ∙ ap (λ b. not (str_eq t s) && b) (has_source-is_raised h l s quiet)

kept :
    (l : List String) (s : String)
    → has_source l s ≡ true
    → (if has_source l s then l else s ∷ l) ≡ l
kept l s h = ap (λ b. if b then l else s ∷ l) h

added :
    (l : List String) (s : String)
    → has_source l s ≡ false
    → (if has_source l s then l else s ∷ l) ≡ s ∷ l
added l s h = ap (λ b. if b then l else s ∷ l) h

held-not_empty : (l : List String) (s : String) → has_source l s ≡ true → not (is_empty l) ≡ true
unfolding has_source
held-not_empty [] s h = h
held-not_empty (t ∷ l) s h = refl

-- The line is high as long as some source is held.
line-sources :
    (h : List IrqEvent) (l : Lines)
    → l.irq_line ≡ not (is_empty l.irq_sources)
    → (after h l).irq_line ≡ not (is_empty (after h l).irq_sources)
unfolding after assert_irq_source clear_irq_source
line-sources [] l e = e
line-sources (raise t ∷ h) l e = elim (Bool-cases (has_source (after h l).irq_sources t)) [
  | inl here ↦ sym (
      ap (λ r. not (is_empty r)) (kept (after h l).irq_sources t here)
      ∙ held-not_empty (after h l).irq_sources t here)
  | inr gone ↦ sym (ap (λ r. not (is_empty r)) (added (after h l).irq_sources t gone))
]
line-sources (release t ∷ h) l e = refl

held_source : (l : List String) → not (is_empty l) ≡ true → (s : String) × (has_source l s ≡ true)
unfolding has_source
held_source [] h = absurd (ground arith)
held_source (t ∷ l) h = (t, ap (λ b. b || has_source l t) (str_eq_refl t))

-- After any history of devices that raise and release their sources, from a line with none, the
-- IRQ line is high exactly when there is a source whose newest event raised it.
pub irq_line-wired_or :
    (h : List IrqEvent) (l : Lines)
    → l.irq_sources ≡ []
    → l.irq_line ≡ false
    → ((after h l).irq_line ≡ true) ↔ ((s : String) × (is_raised h s ≡ true))
irq_line-wired_or h l quiet low =
    let line = line-sources h l (low ∙ sym (ap (λ r. not (is_empty r)) quiet)) in
    (
      (λ high.
          let (s, held) = held_source (after h l).irq_sources (sym line ∙ high) in
          (s, sym (has_source-is_raised h l s quiet) ∙ held)),
      (λ (s, raised). line ∙ held-not_empty _ s (has_source-is_raised h l s quiet ∙ raised)),
    )
