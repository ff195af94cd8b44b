-- ===== src/Ftr/Broker/Positions.antt =====
-- The positions of the paper broker, one per symbol.
use Prim.Native.String.{String}
use text.Mathlib.Text.{◌==◌ as str_eq}
use text.Mathlib.TextEquality.{eq_iff}
use marketmind_open.Common.{
  ◌≡◌, refl, false, none, List, [], ◌∷◌, ◌++◌, All, inl, inr, Bool-cases, arith,
}
use marketmind_open.Ftr.Broker.{Position, position_of, delete_position}

-- No other position has the symbol of one.
abbrev pub OnePerSymbol : List Position → Type 0
OnePerSymbol [] = Unit
OnePerSymbol (p ∷ ps) = (position_of p.symbol ps ≡ none) × OnePerSymbol ps

position_of-append :
    (symbol : String) (ps : List Position) (new : Position)
    → position_of symbol ps ≡ none
    → str_eq new.symbol symbol ≡ false
    → position_of symbol (ps ++ new ∷ []) ≡ none
position_of-append symbol [] new h other = ground (arith, other)
position_of-append symbol (p ∷ ps) new h other = elim (Bool-cases (str_eq p.symbol symbol)) [
  | inl same ↦ absurd (ground (arith, h, same))
  | inr differs ↦
      ground (arith, differs, position_of-append symbol ps new (ground (arith, h, differs)) other)
]

pub OnePerSymbol-append :
    (ps : List Position) (new : Position)
    → OnePerSymbol ps
    → position_of new.symbol ps ≡ none
    → OnePerSymbol (ps ++ new ∷ [])
OnePerSymbol-append [] new h free = (refl, tt)
OnePerSymbol-append (p ∷ ps) new h free = elim (Bool-cases (str_eq p.symbol new.symbol)) [
  | inl same ↦ absurd (ground (arith, free, same))
  | inr differs ↦ (
    position_of-append p.symbol ps new h.0
        (ground (arith, differs, eq_iff p.symbol new.symbol, eq_iff new.symbol p.symbol)),
    OnePerSymbol-append ps new h.1 (ground (arith, free, differs)),
  )
]

position_of-delete :
    (x y : String) (ps : List Position)
    → position_of x ps ≡ none
    → position_of x (delete_position y ps) ≡ none
position_of-delete x y [] h = refl
position_of-delete x y (p ∷ ps) h = elim (Bool-cases (str_eq p.symbol x)) [
  | inl same ↦ absurd (ground (arith, h, same))
  | inr differs ↦
      let rest : position_of x ps ≡ none = ground (arith, h, differs) in
      ground (arith, differs, rest, position_of-delete x y ps rest)
]

pub OnePerSymbol-delete :
    (y : String) (ps : List Position) → OnePerSymbol ps → OnePerSymbol (delete_position y ps)
OnePerSymbol-delete y [] h = tt
OnePerSymbol-delete y (p ∷ ps) h = elim (Bool-cases (str_eq p.symbol y)) [
  | inl same ↦ rw same h.1
  | inr differs ↦ rw differs (position_of-delete p.symbol y ps h.0, OnePerSymbol-delete y ps h.1)
]

pub All-delete :
    (P : Position → Type 0) (y : String) (ps : List Position)
    → All P ps
    → All P (delete_position y ps)
All-delete P y [] h = tt
All-delete P y (p ∷ ps) h = elim (Bool-cases (str_eq p.symbol y)) [
  | inl same ↦ rw same h.1
  | inr differs ↦ rw differs (h.0, All-delete P y ps h.1)
]

pub All-append :
    (P : Position → Type 0) (ps : List Position) (p : Position)
    → All P ps
    → P p
    → All P (ps ++ p ∷ [])
All-append P [] p h new = (new, tt)
All-append P (x ∷ ps) p h new = (h.0, All-append P ps p h.1 new)
