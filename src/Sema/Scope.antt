-- ===== src/Sema/Scope.antt =====
-- Symbols and scopes: `SymbolName` and `Scope` of cero/sema/symbol_table.hh and .cc. The result of
-- `std::hash` is a parameter. An unordered map is the list of its entries; a lookup meets those
-- whose hash is that of the key, and compares their names.
use cero.Common.{
  ℕ, Bool, true, false, ◌&&◌, Option, none, some, List, [], ◌∷◌, Bytes, ◌==◌, if◌then◌else◌,
}

pub data SymbolKind : Type 0 where
  function parameter output : SymbolKind

pub record Symbol : Type 0 where
  pub kind : SymbolKind
  pub type : ℕ

pub record SymbolName : Type 0 where
  pub name : Bytes
  pub hash : ℕ

unfoldable pub symbol_name : (Bytes → ℕ) → Bytes → SymbolName
symbol_name std_hash identifier = record { name = identifier; hash = std_hash identifier }

-- `==` of string views.
unfoldable pub equals : Bytes → Bytes → Bool
equals [] [] = true
equals (a ∷ as') (b ∷ bs) = (a == b) && equals as' bs
equals _ _ = false

-- `SymbolName::operator==`.
unfoldable pub same_name : SymbolName → SymbolName → Bool
unfolding equals
same_name key other = equals key.name other.name

pub record Entry : Type 0 where
  pub key : SymbolName
  pub symbol : Symbol

abbrev pub Scope : Type 0
Scope = List Entry

unfoldable pub find : SymbolName → Scope → Option Symbol
unfolding same_name
find key [] = none
find key (e ∷ es) =
    let rest = find key es in
    if (e.key.hash == key.hash) && same_name e.key key then some e.symbol else rest

-- `emplace` changes nothing where the key is there. The symbol's type is zero.
unfoldable pub put : (Bytes → ℕ) → Bytes → SymbolKind → Scope → Scope
unfolding find symbol_name
put std_hash identifier kind s = elim (find (symbol_name std_hash identifier) s) [
  | some symbol ↦ s
  | none ↦
      record { key = symbol_name std_hash identifier; symbol = record { kind = kind; type = 0 } }
      ∷ s
]
