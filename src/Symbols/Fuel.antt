-- ===== src/Symbols/Fuel.antt =====
-- parseKV's loop ends: the length of the text is fuel enough, and more changes nothing.
use chippy.Prelude.{
  ℕ, zero, suc, ◌≤◌, ◌<◌, ◌≡◌, refl, Bool, Option, none, some, [], ◌∷◌, length, ◌==◌, if-elim,
  arith,
}
use chippy.Symbols.{
  Text, Fields, trim_space, cut, cut_more, skip_comma, starts_quoted, behind_one, quoted_value,
  plain_value, read_value, put_field, with_key, parse_kv_from,
}

-- The text left is shorter than `n`.
unfoldable LeavesLess : ℕ → Option (Text × Text) → Type 0
LeavesLess n none = Unit
LeavesLess n (some (value, rest)) = length rest < n

LeavesLess-cut_more :
    (n c : ℕ) (o : Option (Text × Text)) → LeavesLess n o → LeavesLess (suc n) (cut_more c o)
unfolding LeavesLess
LeavesLess-cut_more n c none h = tt
LeavesLess-cut_more n c (some (value, rest)) h = omega (arith, h)

cut-LeavesLess : (test : ℕ → Bool) (s : Text) → LeavesLess (length s) (cut test s)
unfolding cut LeavesLess
cut-LeavesLess test [] = tt
cut-LeavesLess test (c ∷ s) =
    if-elim (LeavesLess (suc (length s))) (test c) (some ([], s)) (cut_more c (cut test s))
      (λ e. omega arith)
      (λ e. LeavesLess-cut_more (length s) c (cut test s) (cut-LeavesLess test s))

skip_comma-length : (s : Text) → length (skip_comma s) ≤ length s
skip_comma-length [] = omega arith
skip_comma-length (c ∷ s) = ground arith

quoted-LeavesLess :
    (n : ℕ) (o : Option (Text × Text)) → LeavesLess n o → LeavesLess (suc n) (quoted_value o)
unfolding LeavesLess
quoted-LeavesLess n none h = tt
quoted-LeavesLess n (some (value, rest)) h = omega (arith, h, skip_comma-length rest)

plain-LeavesLess :
    (n : ℕ) (s : Text) (o : Option (Text × Text))
    → LeavesLess n o
    → LeavesLess (suc n) (plain_value s o)
unfolding LeavesLess
plain-LeavesLess n s none h = omega arith
plain-LeavesLess n s (some (value, rest)) h = omega (arith, h)

weaker : (m n : ℕ) (o : Option (Text × Text)) → m ≤ n → LeavesLess m o → LeavesLess n o
unfolding LeavesLess
weaker m n none le h = tt
weaker m n (some (value, rest)) le h = omega (arith, le, h)

behind_one-length : (s : Text) → length (behind_one s) ≤ length s
behind_one-length [] = omega arith
behind_one-length (c ∷ s) = omega arith

read_value-LeavesLess : (s : Text) → LeavesLess (suc (length s)) (read_value s)
unfolding read_value
read_value-LeavesLess s =
    let inside : ℕ = length (behind_one s) in
    if-elim (LeavesLess (suc (length s))) (starts_quoted s) _ _
      (λ e. quoted-LeavesLess (length s) (cut (λ c. c == 34) (behind_one s)) (
        weaker inside (length s) (cut (λ c. c == 34) (behind_one s)) (behind_one-length s)
          (cut-LeavesLess (λ c. c == 34) (behind_one s))))
      (λ e. plain-LeavesLess (length s) s (cut (λ c. c == 44) s) (cut-LeavesLess (λ c. c == 44) s))

with_key-same :
    (n : ℕ) (out : Fields) (f g : Text → Text → Fields) (o : Option (Text × Text))
    → LeavesLess n o
    → ((key rest : Text) → length rest < n → f key rest ≡ g key rest)
    → with_key out f o ≡ with_key out g o
unfolding LeavesLess
with_key-same n out f g none less h = refl
with_key-same n out f g (some (key, rest)) less h = h (trim_space key) rest less

put_field-same :
    (n : ℕ) (key : Text) (out : Fields) (f g : Text → Fields → Fields) (o : Option (Text × Text))
    → LeavesLess n o
    → ((rest : Text) (out : Fields) → length rest < n → f rest out ≡ g rest out)
    → put_field key out f o ≡ put_field key out g o
unfolding LeavesLess
put_field-same n key out f g none less h = refl
put_field-same n key out f g (some (value, rest)) less h = h rest ((key, value) ∷ out) less

pub parse_kv-fuel :
    (f g : ℕ) (s : Text) (out : Fields)
    → length s ≤ f
    → length s ≤ g
    → parse_kv_from f s out ≡ parse_kv_from g s out
unfolding parse_kv_from cut
parse_kv-fuel zero zero s out hf hg = refl
parse_kv-fuel zero (suc g) [] out hf hg = refl
parse_kv-fuel zero (suc g) (c ∷ s) out hf hg = absurd (omega (arith, hf))
parse_kv-fuel (suc f) zero [] out hf hg = refl
parse_kv-fuel (suc f) zero (c ∷ s) out hf hg = absurd (omega (arith, hg))
parse_kv-fuel (suc f) (suc g) s out hf hg =
    with_key-same (length s) out _ _ (cut (λ c. c == 61) s) (cut-LeavesLess (λ c. c == 61) s)
      λ key rest less.
        put_field-same (suc (length rest)) key out _ _ (read_value rest)
          (read_value-LeavesLess rest)
          λ rest' out' less'.
            parse_kv-fuel f g rest' out' (omega (arith, hf, less, less'))
              (omega (arith, hg, less, less'))
