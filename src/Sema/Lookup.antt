-- ===== src/Sema/Lookup.antt =====
-- What a lookup finds (cero/sema/symbol_table.cc).
use cero.Common.{
  ℕ, Bool, true, false, ◌&&◌, Option, none, some, [], ◌∷◌, ◌++◌, Bytes, ◌==◌, if◌then◌else◌, ◌≡◌,
  refl, sym, subst, ap, All, inl, inr, Bool-cases, Option-cases, ==→eq, ==_iff,
}
use cero.Sema.Scope
use cero.Sema.Scope.{Scope, Symbol, SymbolName, SymbolKind, symbol_name, equals, same_name}
use cero.Sema.SymbolTable
use cero.Sema.SymbolTable.{SymbolTable, push_scope, pop_scope, find_key}

equals_refl : (name : Bytes) → equals name name ≡ true
unfolding equals
equals_refl [] = refl
equals_refl (b ∷ bs) = rw ((==_iff b b).1 refl) (equals_refl bs)

equals→eq : (name other : Bytes) → equals name other ≡ true → name ≡ other
unfolding equals
equals→eq [] [] h = refl
equals→eq [] (b ∷ bs) h = cc
equals→eq (a ∷ as') [] h = cc
equals→eq (a ∷ as') (b ∷ bs) h = elim (Bool-cases (a == b)) [
  | inl e ↦ let k : equals as' bs ≡ true = rw e at h in rw (==→eq a b e, equals→eq as' bs k) refl
  | inr e ↦ let k : false ≡ true = rw e at h in cc
]

and_false : (b : Bool) → b && false ≡ false
and_false true = refl
and_false false = refl

-- The keys of two identifiers, compared as a lookup does, are the same if the identifiers are.
compare_keys :
    (std_hash : Bytes → ℕ) (name other : Bytes)
    → ((symbol_name std_hash name).hash == (symbol_name std_hash other).hash)
        && same_name (symbol_name std_hash name) (symbol_name std_hash other)
      ≡ equals name other
unfolding symbol_name same_name
compare_keys std_hash name other = elim (Bool-cases (equals name other)) [
  | inl e ↦ rw (equals→eq name other e, (==_iff (std_hash other) (std_hash other)).1 refl) refl
  | inr e ↦ rw e (and_false (std_hash name == std_hash other))
]

-- What a scope knows of an identifier when another was put: what it knew before, or else the new
-- symbol, if it is the same identifier.
abbrev pub extended : Option Symbol → Bool → SymbolKind → Option Symbol
extended (some symbol) same kind = some symbol
extended none same kind = if same then some (record { kind = kind; type = 0 }) else none

extended-false : (o : Option Symbol) (kind : SymbolKind) → o ≡ extended o false kind
extended-false none kind = refl
extended-false (some symbol) kind = refl

-- A new entry is found under its identifier alone.
find-entry :
    (std_hash : Bytes → ℕ) (identifier other : Bytes) (symbol : Symbol) (s : Scope)
    → Scope.find
        (symbol_name std_hash other)
        (record { key = symbol_name std_hash identifier; symbol = symbol } ∷ s)
      ≡ (if equals identifier other then some symbol else Scope.find (symbol_name std_hash other) s)
unfolding Scope.find
find-entry std_hash identifier other symbol s =
    ap (λ b. if b then some symbol else Scope.find (symbol_name std_hash other) s)
      (compare_keys std_hash identifier other)

find-equals :
    (std_hash : Bytes → ℕ) (identifier other : Bytes) (s : Scope)
    → equals identifier other ≡ true
    → Scope.find (symbol_name std_hash other) s ≡ Scope.find (symbol_name std_hash identifier) s
find-equals std_hash identifier other s e =
    ap (λ x. Scope.find (symbol_name std_hash x) s) (sym (equals→eq identifier other e))

put_new :
    (std_hash : Bytes → ℕ) (identifier other : Bytes) (kind : SymbolKind) (s : Scope)
    → Scope.find (symbol_name std_hash identifier) s ≡ none
    → Scope.find (symbol_name std_hash other) (Scope.put std_hash identifier kind s)
      ≡ extended (Scope.find (symbol_name std_hash other) s) (equals identifier other) kind
unfolding Scope.put Scope.find
put_new std_hash identifier other kind s e = elim (Bool-cases (equals identifier other)) [
  | inl k ↦
      rw
        (
          e,
          Scope.put,
          find-entry std_hash identifier other,
          k,
          find-equals std_hash identifier other s k,
          e,
        )
        refl
  | inr k ↦
      rw (e, Scope.put, find-entry std_hash identifier other, k)
        (extended-false (Scope.find (symbol_name std_hash other) s) kind)
]

put_again :
    (std_hash : Bytes → ℕ) (identifier other : Bytes) (kind : SymbolKind) (s : Scope)
    (symbol : Symbol)
    → Scope.find (symbol_name std_hash identifier) s ≡ some symbol
    → Scope.find (symbol_name std_hash other) (Scope.put std_hash identifier kind s)
      ≡ extended (Scope.find (symbol_name std_hash other) s) (equals identifier other) kind
unfolding Scope.put Scope.find
put_again std_hash identifier other kind s symbol e = elim (Bool-cases (equals identifier other)) [
  | inl k ↦ rw (e, Scope.put, k, find-equals std_hash identifier other s k, e) refl
  | inr k ↦ rw (e, Scope.put, k) (extended-false (Scope.find (symbol_name std_hash other) s) kind)
]

-- A scope refines a function from identifiers to symbols, whatever the hash function: what is put
-- first stays, and no identifier hides another one.
pub find-put :
    (std_hash : Bytes → ℕ) (identifier other : Bytes) (kind : SymbolKind) (s : Scope)
    → Scope.find (symbol_name std_hash other) (Scope.put std_hash identifier kind s)
      ≡ extended (Scope.find (symbol_name std_hash other) s) (equals identifier other) kind
find-put std_hash identifier other kind s =
    elim (Option-cases (Scope.find (symbol_name std_hash identifier) s)) [
      | inl e ↦ put_new std_hash identifier other kind s e
      | inr (symbol, e) ↦ put_again std_hash identifier other kind s symbol e
    ]

-- What a lookup through the scopes comes to.
pub data Resolves (key : SymbolName) : SymbolTable → Option Symbol → Type 0 where
  unknown : {t : SymbolTable} → All (λ s. Scope.find key s ≡ none) t → Resolves key t none
  known :
      (s : Scope) (symbol : Symbol) (inner outer : SymbolTable)
      → All (λ s. Scope.find key s ≡ none) inner
      → Scope.find key s ≡ some symbol
      → Resolves key (inner ++ (s ∷ outer)) (some symbol)

Resolves-push :
    (key : SymbolName) (s : Scope) (t : SymbolTable) (o : Option Symbol)
    → Scope.find key s ≡ none
    → Resolves key t o
    → Resolves key (s ∷ t) o
Resolves-push key s t none e (unknown h) = unknown (e, h)
Resolves-push key s t (some symbol) e (known x y inner outer h k) =
    known x y (s ∷ inner) outer (e, h) k

find_key-Resolves : (key : SymbolName) (t : SymbolTable) → Resolves key t (find_key key t)
unfolding find_key
find_key-Resolves key [] = unknown tt
find_key-Resolves key (s ∷ t) = elim (Option-cases (Scope.find key s)) [
  | inl e ↦ rw (e, find_key) (Resolves-push key s t (find_key key t) e (find_key-Resolves key t))
  | inr (symbol, e) ↦ rw (e, find_key) (known s symbol [] t tt e)
]

-- A lookup gives the symbol of the innermost scope that knows the identifier, and none exactly if
-- no scope knows it.
pub find-Resolves :
    (std_hash : Bytes → ℕ) (identifier : Bytes) (t : SymbolTable)
    → Resolves (symbol_name std_hash identifier) t (SymbolTable.find std_hash identifier t)
unfolding SymbolTable.find
find-Resolves std_hash identifier t = find_key-Resolves (symbol_name std_hash identifier) t

-- The tables that the operations of a symbol table make, one after another.
pub data Made : SymbolTable → Type 0 where
  new : Made []
  pushed : {t : SymbolTable} → Made t → Made (push_scope t)
  popped : {t u : SymbolTable} → Made t → pop_scope t ≡ some u → Made u
  declared :
      {t u : SymbolTable} (identifier : Bytes) (kind : SymbolKind)
      → Made t
      → SymbolTable.put identifier kind t ≡ some u
      → Made u

Empty : SymbolTable → Type 0
Empty t = All (λ s. s ≡ []) t

popped_lem : (t u : SymbolTable) → pop_scope t ≡ some u → Empty t → Empty u
unfolding pop_scope Empty
popped_lem [] u e h = cc
popped_lem (s ∷ t) u e h = let k : t ≡ u = cc in subst Empty k h.1

put_same :
    (identifier : Bytes) (kind : SymbolKind) (t u : SymbolTable)
    → SymbolTable.put identifier kind t ≡ some u
    → t ≡ u
unfolding SymbolTable.put
put_same identifier kind [] u e = cc
put_same identifier kind (s ∷ t) u e = cc

Made-Empty : {t : SymbolTable} → Made t → Empty t
unfolding push_scope Empty
Made-Empty new = tt
Made-Empty (pushed h) = (refl, Made-Empty h)
Made-Empty (popped {t} {u} h e) = popped_lem t u e (Made-Empty h)
Made-Empty (declared {t} {u} identifier kind h e) =
    subst Empty (put_same identifier kind t u e) (Made-Empty h)

find_key-Empty : (key : SymbolName) (t : SymbolTable) → Empty t → find_key key t ≡ none
unfolding find_key Scope.find Empty
find_key-Empty key [] h = refl
find_key-Empty key (s ∷ t) h = rw (h.0, find_key) (find_key-Empty key t h.1)

-- In a table that its own operations made, no identifier is ever found, also one that was put.
pub find-Made :
    (std_hash : Bytes → ℕ) (identifier : Bytes) (t : SymbolTable)
    → Made t
    → SymbolTable.find std_hash identifier t ≡ none
unfolding SymbolTable.find
find-Made std_hash identifier t h =
    find_key-Empty (symbol_name std_hash identifier) t (Made-Empty h)
