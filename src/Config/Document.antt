-- ===== src/Config/Document.antt =====
-- What internal/config keeps of a document (document.go, load.go): its values, where they were written,
-- and the names it goes by. The YAML parser that makes a document is third-party code.
use clusterctl.Prelude.{
  ℕ, zero, suc, Bool, ◌||◌, Option, none, some, List, [], ◌∷◌, Bytes, codes, lookup, length, ◌==◌,
  if◌then◌else◌,
}
use clusterctl.Config.Value.{Value, str, Fields, get, as_mapping}
use clusterctl.Config.Tree.{Origin, dot}

-- Document
pub record Document : Type 0 where
  pub file : Bytes
  pub kind : Bytes
  pub data_of : Fields
  -- Positions
  pub positions : List (Bytes × Origin)

abbrev pub at_file : Bytes → Origin
at_file file = record { layer = []; file = file; line = 0; column = 0 }

-- p[:cut], for the last byte that `is_cut` holds of
unfoldable pub cut_last : (ℕ → Bool) → Bytes → Option Bytes
cut_last is_cut [] = none
cut_last is_cut (c ∷ s) = elim (cut_last is_cut s) [
  | some t ↦ some (c ∷ t)
  | none ↦ if is_cut c then some [] else none
]

abbrev pub is_dot : ℕ → Bool
is_dot c = c == dot

-- the bytes of ".["
abbrev pub is_dot_or_bracket : ℕ → Bool
is_dot_or_bracket c = (c == dot) || (c == b'[')

-- the loop of `Position`
unfoldable pub position_loop : ℕ → Document → Bytes → Origin
unfolding lookup cut_last
position_loop zero d p = at_file d.file
position_loop (suc fuel) d p = elim (lookup p d.positions) [
  | some o ↦ o
  | none ↦ elim (cut_last is_dot_or_bracket p) [
    | none ↦ at_file d.file
    | some q ↦ position_loop fuel d q
  ]
]

-- Position
unfoldable pub position : Document → Bytes → Origin
unfolding position_loop
position d path = position_loop (suc (length path)) d path

-- `v.(string)`, where another value reads as the empty text
unfoldable pub text_of : Option Value → Bytes
text_of (some (str s)) = s
text_of _ = []

-- documentName
unfoldable pub document_name : Document → Bytes
unfolding get as_mapping text_of
document_name d = elim (get (codes "metadata") d.data_of) [
  | none ↦ []
  | some v ↦ elim (as_mapping v) [ none ↦ [] | some meta ↦ text_of (get (codes "name") meta) ]
]

-- documentAt
unfoldable pub document_at : Document → Origin
unfolding lookup
document_at d = elim (lookup (codes "kind") d.positions) [ some o ↦ o | none ↦ at_file d.file ]
