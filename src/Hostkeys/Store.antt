-- ===== src/Hostkeys/Store.antt =====
-- File: a known_hosts file, read and written.
use clusterctl.Prelude.{
  ℕ, suc, Bool, true, false, not, ◌&&◌, List, [], ◌∷◌, ◌++◌, Bytes, Result, ok, err, ◌>>=◌, codes,
  eqb, if◌then◌else◌, join_with, split_on, has_prefix, trim_space, fields_of,
}
use clusterctl.Config.Value.{lt_bytes}
use clusterctl.Hostkeys.{Entry, entry_line, marker_revoked, marker_cert_authority}

-- File
pub record File : Type 0 where
  pub header : List Bytes
  pub entries : List Entry
  pub trailer : List Bytes

-- the errors of `Parse`, with the number of the line
pub data LineFault : Type 0 where
  unknown_marker : (line : ℕ) → (marker : Bytes) → LineFault
  not_a_key : (line : ℕ) → (raw : Bytes) → LineFault

-- the variables of the loop of `Parse`
pub record Reading : Type 0 where
  pub top : List Bytes
  pub found : List Entry
  pub noted : List Bytes
  pub body : Bool

-- the end of a turn of the loop: the fields after the marker
unfoldable pub read_entry : ℕ → Bytes → Bytes → List Bytes → Reading → Result LineFault Reading
read_entry n raw marker (hosts ∷ type_of ∷ key ∷ more) r = ok (record r {
  found =
      r.found
      ++ record {
        marker = marker;
        hosts = split_on b',' hosts;
        type_of = type_of;
        key = key;
        comment = join_with b' ' more;
        notes = r.noted;
      }
        ∷ [];
  noted = [];
})
read_entry n raw marker [] r = err (not_a_key n raw)
read_entry n raw marker (a ∷ []) r = err (not_a_key n raw)
read_entry n raw marker (a ∷ b ∷ []) r = err (not_a_key n raw)

-- the fields of a line, which has one
unfoldable pub read_fields : ℕ → Bytes → List Bytes → Reading → Result LineFault Reading
read_fields n raw [] r = err (not_a_key n raw)
read_fields n raw (w ∷ ws) r =
    if not (has_prefix w (codes "@"))
    then read_entry n raw [] (w ∷ ws) r
    else if not (eqb w marker_revoked) && not (eqb w marker_cert_authority)
    then err (unknown_marker n w)
    else read_entry n raw w ws r

-- a turn of the loop of `Parse`
unfoldable pub read_line : ℕ → Bytes → Reading → Result LineFault Reading
read_line n raw r =
    let line = trim_space raw in
    if eqb line []
    then ok r
    else if has_prefix line (codes "#")
    then ok (
        if r.body
        then record r { noted = r.noted ++ line ∷ [] }
        else record r { top = r.top ++ line ∷ [] })
    else read_fields n raw (fields_of line) (record r { body = true })

unfoldable pub read_all : ℕ → List Bytes → Reading → Result LineFault Reading
read_all n [] r = ok r
read_all n (l ∷ ls) r = do next ← read_line n l r; read_all (suc n) ls next

-- Parse
unfoldable pub parse : Bytes → Result LineFault File
parse text = do
  r ← read_all 1 (split_on 10 text) (record { top = []; found = []; noted = []; body = false })
  ok (record { header = r.top; entries = r.found; trailer = r.noted })

-- the order of `Render`
unfoldable pub entry_before : Entry → Entry → Bool
entry_before d e =
    let a = join_with b',' d.hosts in
    let c = join_with b',' e.hosts in
    if not (eqb a c)
    then lt_bytes a c
    else if not (eqb d.marker e.marker)
    then lt_bytes d.marker e.marker
    else lt_bytes d.type_of e.type_of

-- sort.SliceStable
unfoldable pub insert_entry : Entry → List Entry → List Entry
insert_entry e [] = e ∷ []
insert_entry e (d ∷ ds) =
    let later = insert_entry e ds in if entry_before d e then d ∷ later else e ∷ d ∷ ds

unfoldable pub sort_entries : List Entry → List Entry
sort_entries [] = []
sort_entries (e ∷ es) = insert_entry e (sort_entries es)

abbrev pub with_newlines : List Bytes → Bytes
with_newlines [] = []
with_newlines (l ∷ ls) = l ++ 10 ∷ with_newlines ls

unfoldable pub render_entries : List Entry → Bytes
render_entries [] = []
render_entries (e ∷ es) = with_newlines e.notes ++ entry_line e ++ 10 ∷ render_entries es

-- Render
unfoldable pub render : File → Bytes
render f =
    with_newlines f.header ++ render_entries (sort_entries f.entries) ++ with_newlines f.trailer
