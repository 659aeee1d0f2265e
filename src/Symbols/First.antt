-- ===== src/Symbols/First.antt =====
-- The first definition of a name, and the first symbol at an address, are what the table answers.
use chippy.Prelude.{
  ℕ, ◌≡◌, refl, sym, ap, ◌∙◌, Bool, true, false, Option, none, some, List, [], ◌∷◌, ◌==◌,
  if◌then◌else◌, Bool-cases, inl, inr, arith,
}
use chippy.Expr.Value.{bytes_eq}
use chippy.Symbols.{Text, lookup}
use chippy.Symbols.Table.{
  Table, no_symbols, or_empty, lookup_addr, lookup_name, Entry, line_entry, keep_first, add, add_if,
  load_lines,
}

abbrev or_else {ℓ} : {A : Type ℓ} → Option A → Option A → Option A
or_else none o = o
or_else (some a) o = some a

or_else-none {ℓ} : {A : Type ℓ} (o : Option A) → o ≡ or_else o none
or_else-none none = refl
or_else-none (some a) = refl

or_else-if {ℓ} :
    {A : Type ℓ} (x : Option A) (b : Bool) (v : A) (y : Option A)
    → or_else (or_else x (if b then some v else none)) y ≡ or_else x (if b then some v else y)
or_else-if none true v y = refl
or_else-if none false v y = refl
or_else-if (some a) b v y = refl

abbrev ahead : Option Entry → List Entry → List Entry
ahead none l = l
ahead (some e) l = e ∷ l

-- The symbols that lines define, in order.
unfoldable pub entries : List Text → List Entry
entries [] = []
entries (line ∷ lines) = ahead (line_entry line) (entries lines)

-- The first symbol of that name.
unfoldable pub address_of : Text → List Entry → Option ℕ
unfolding bytes_eq
address_of name [] = none
address_of name (e ∷ l) = if bytes_eq e.name name then some e.addr else address_of name l

unfoldable pub name_at : ℕ → List Entry → Option Text
name_at addr [] = none
name_at addr (e ∷ l) = if e.addr == addr then some e.name else name_at addr l

module _ {ℓ κ} {A : Type ℓ} {B : Type κ} (same : A → A → Bool)
    (exact : (a b : A) → same a b ≡ true → a ≡ b) where
  keep_first-lookup :
      (k : A) (v : B) (l : List (A × B)) (a : A) (at_k : Option B)
      → lookup same l k ≡ at_k
      → lookup same (keep_first k v l at_k) a
        ≡ or_else (lookup same l a) (if same k a then some v else none)
  unfolding lookup
  keep_first-lookup k v l a none e = elim (Bool-cases (same k a)) [
    | inl hit ↦
        let absent : lookup same l a ≡ none = ap (lookup same l) (sym (exact k a hit)) ∙ e in
        ap (λ b. if b then some v else lookup same l a) hit
        ∙ ap (λ b. or_else none (if b then some v else none)) (sym hit)
        ∙ ap (λ o. or_else o (if same k a then some v else none)) (sym absent)
    | inr miss ↦
        ap (λ b. if b then some v else lookup same l a) miss
        ∙ or_else-none (lookup same l a)
        ∙ ap (λ b. or_else (lookup same l a) (if b then some v else none)) (sym miss)
  ]
  keep_first-lookup k v l a (some old) e = elim (Bool-cases (same k a)) [
    | inl hit ↦
        let present : lookup same l a ≡ some old = ap (lookup same l) (sym (exact k a hit)) ∙ e in
        present ∙ ap (λ o. or_else o (if same k a then some v else none)) (sym present)
    | inr miss ↦
        or_else-none (lookup same l a)
        ∙ ap (λ b. or_else (lookup same l a) (if b then some v else none)) (sym miss)
  ]

bytes_eq-exact : (s t : Text) → bytes_eq s t ≡ true → s ≡ t
unfolding bytes_eq
bytes_eq-exact [] [] e = refl
bytes_eq-exact [] (b ∷ t) e = cc
bytes_eq-exact (a ∷ s) [] e = cc
bytes_eq-exact (a ∷ s) (b ∷ t) e =
    let head : a ≡ b = ground (arith, e) in
    let tail : bytes_eq s t ≡ true = ground (arith, e) in
    ap (λ c. c ∷ s) head ∙ ap (λ r. b ∷ r) (bytes_eq-exact s t tail)

==-exact : (a b : ℕ) → (a == b) ≡ true → a ≡ b
==-exact a b e = ground (arith, e)

add_if-name :
    (o : Option Entry) (t : Table) (name : Text) (l : List Entry)
    → or_else (lookup_name (add_if o t) name) (address_of name l)
      ≡ or_else (lookup_name t name) (address_of name (ahead o l))
unfolding lookup_name add address_of
add_if-name none t name l = refl
add_if-name (some e) t name l =
    ap (λ o. or_else o (address_of name l))
      (keep_first-lookup bytes_eq bytes_eq-exact e.name e.addr t.by_name name
        (lookup bytes_eq t.by_name e.name) refl)
    ∙ or_else-if (lookup bytes_eq t.by_name name) (bytes_eq e.name name) e.addr (address_of name l)

add_if-addr :
    (o : Option Entry) (t : Table) (addr : ℕ) (l : List Entry)
    → or_else (lookup (λ a b. a == b) (add_if o t).by_addr addr) (name_at addr l)
      ≡ or_else (lookup (λ a b. a == b) t.by_addr addr) (name_at addr (ahead o l))
unfolding add name_at
add_if-addr none t addr l = refl
add_if-addr (some e) t addr l =
    ap (λ o. or_else o (name_at addr l))
      (keep_first-lookup (λ a b. a == b) ==-exact e.addr e.name t.by_addr addr
        (lookup (λ a b. a == b) t.by_addr e.addr) refl)
    ∙ or_else-if (lookup (λ a b. a == b) t.by_addr addr) (e.addr == addr) e.name (name_at addr l)

load_lines-name :
    (lines : List Text) (t : Table) (name : Text)
    → lookup_name (load_lines lines t) name
      ≡ or_else (lookup_name t name) (address_of name (entries lines))
unfolding load_lines entries address_of
load_lines-name [] t name = or_else-none (lookup_name t name)
load_lines-name (line ∷ lines) t name =
    load_lines-name lines (add_if (line_entry line) t) name
    ∙ add_if-name (line_entry line) t name (entries lines)

load_lines-addr :
    (lines : List Text) (t : Table) (addr : ℕ)
    → lookup (λ a b. a == b) (load_lines lines t).by_addr addr
      ≡ or_else (lookup (λ a b. a == b) t.by_addr addr) (name_at addr (entries lines))
unfolding load_lines entries name_at
load_lines-addr [] t addr = or_else-none (lookup (λ a b. a == b) t.by_addr addr)
load_lines-addr (line ∷ lines) t addr =
    load_lines-addr lines (add_if (line_entry line) t) addr
    ∙ add_if-addr (line_entry line) t addr (entries lines)

-- After the lines of a .dbg file, a name has the address of the first line that defines it, an address has
-- the name of the first line that defines a symbol there, and what no line defines has none.
pub load_lines-first :
    (lines : List Text) (name : Text) (addr : ℕ)
    → (lookup_name (load_lines lines no_symbols) name ≡ address_of name (entries lines))
      × (lookup_addr (load_lines lines no_symbols) addr ≡ or_empty (name_at addr (entries lines)))
unfolding lookup_name lookup_addr lookup
load_lines-first lines name addr =
    (load_lines-name lines no_symbols name, ap or_empty (load_lines-addr lines no_symbols addr))
