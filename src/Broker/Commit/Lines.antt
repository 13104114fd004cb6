-- ===== src/Broker/Commit/Lines.antt =====
-- That the header lines hold every byte of the header block.
use chuvar.Prelude.{
  Str, false, ◌≡◌, refl, ap, sym, ◌∙◌, inl, inr, List, [], ◌∷◌, ◌++◌, map, arith, is_empty, All,
  ◌==◌, if◌then◌else◌, Bool-cases, Lacks, split_on, split_on-Lacks, join, join-split_on, append-nil,
  append_assoc, ==→eq,
}
use chuvar.Broker.Commit.{newline, extend_last, fold_lines, split_header_lines}

-- A header as it stands in the block: every further line of its value begins with a space.
unfoldable pub continued : Str → Str
continued [] = []
continued (c ∷ s) =
    let rest = continued s in if c == newline then newline ∷ b' ' ∷ rest else c ∷ rest

continued_lacking : (s : Str) → Lacks newline s → continued s ≡ s
unfolding continued
continued_lacking [] h = refl
continued_lacking (c ∷ s) h = rw (h.0, continued_lacking s h.1) refl

continued-append : (a b : Str) → continued (a ++ b) ≡ continued a ++ continued b
unfolding continued
continued-append [] b = refl
continued-append (c ∷ a) b = ground (arith, continued-append a b)

extend_last-cons :
    (k : Str) (ls : List Str) (m : Str)
    → (y : Str) × (ys : List Str) × (extend_last (k ∷ ls) m ≡ y ∷ ys)
unfolding extend_last
extend_last-cons k [] m = (k ++ m, [], refl)
extend_last-cons k (l ∷ ls) m = (k, extend_last (l ∷ ls) m, refl)

extend_lem :
    (lines raw : List Str) (l : Str)
    → is_empty lines ≡ false
    → Lacks newline l
    → join newline (map continued (extend_last lines (newline ∷ l)) ++ raw)
      ≡ join newline (map continued lines ++ (b' ' ∷ l) ∷ raw)
unfolding extend_last join continued
extend_lem [] raw l ne lacks = absurd (cc ne)
extend_lem (x ∷ []) [] l ne lacks =
    rw (continued-append x (newline ∷ l), continued_lacking l lacks) refl
extend_lem (x ∷ []) (r ∷ raw) l ne lacks =
    rw (continued-append x (newline ∷ l), continued_lacking l lacks, append_assoc) refl
extend_lem (x ∷ k ∷ ls) raw l ne lacks =
    let (y, ys, e) = extend_last-cons k ls (newline ∷ l) in
    let ih = extend_lem (k ∷ ls) raw l refl lacks in
    rw e (ap (λ t. continued x ++ newline ∷ t) (rw e at ih))

map-snoc :
    (ls : List Str) (l : Str) (raw : List Str)
    → Lacks newline l
    → map continued (ls ++ l ∷ []) ++ raw ≡ map continued ls ++ l ∷ raw
map-snoc [] l raw lacks = rw (continued_lacking l lacks) refl
map-snoc (x ∷ ls) l raw lacks = ap (λ t. continued x ∷ t) (map-snoc ls l raw lacks)

snoc-full : (ls : List Str) (l : Str) → is_empty (ls ++ l ∷ []) ≡ false
snoc-full [] l = refl
snoc-full (x ∷ ls) l = refl

extend-full : (ls : List Str) (m : Str) → is_empty ls ≡ false → is_empty (extend_last ls m) ≡ false
unfolding extend_last
extend-full [] m h = h
extend-full (x ∷ []) m h = refl
extend-full (x ∷ k ∷ ls) m h = refl

fold_lines_lem :
    (lines raw : List Str)
    → is_empty lines ≡ false
    → All (Lacks newline) raw
    → join newline (map continued (fold_lines lines raw))
      ≡ join newline (map continued lines ++ raw)
unfolding fold_lines
fold_lines_lem lines [] ne lacks = ap (join newline) (sym (append-nil _))
fold_lines_lem lines ([] ∷ raw) ne lacks =
    fold_lines_lem (lines ++ [] ∷ []) raw (snoc-full lines []) lacks.1
    ∙ ap (join newline) (map-snoc lines [] raw lacks.0)
fold_lines_lem lines ((c ∷ l) ∷ raw) ne lacks = elim (Bool-cases (c == b' ')) [
  | inl e ↦
      let space = ==→eq c b' ' e in
      rw (e, ne)
        (fold_lines_lem (extend_last lines (newline ∷ l)) raw (extend-full lines _ ne) lacks.1
          ∙ extend_lem lines raw l ne lacks.0.1
          ∙ ap (λ x. join newline (map continued lines ++ (x ∷ l) ∷ raw)) (sym space))
  | inr e ↦ rw e (
      fold_lines_lem (lines ++ (c ∷ l) ∷ []) raw (snoc-full lines (c ∷ l)) lacks.1
      ∙ ap (join newline) (map-snoc lines (c ∷ l) raw lacks.0))
]

first_line :
    (raw : List Str)
    → All (Lacks newline) raw
    → join newline (map continued (fold_lines [] raw)) ≡ join newline raw
unfolding fold_lines
first_line [] lacks = refl
first_line ([] ∷ raw) lacks =
    fold_lines_lem ([] ∷ []) raw refl lacks.1
    ∙ ap (λ x. join newline (x ∷ raw)) (continued_lacking [] tt)
first_line ((c ∷ l) ∷ raw) lacks = elim (Bool-cases (c == b' ')) [
  | inl e ↦ rw e (
      fold_lines_lem ((c ∷ l) ∷ []) raw refl lacks.1
      ∙ ap (λ x. join newline (x ∷ raw)) (continued_lacking (c ∷ l) lacks.0))
  | inr e ↦ rw e (
      fold_lines_lem ((c ∷ l) ∷ []) raw refl lacks.1
      ∙ ap (λ x. join newline (x ∷ raw)) (continued_lacking (c ∷ l) lacks.0))
]

-- The header lines lose nothing: written out again, each further line of a value behind a newline
-- and a space, they are the header block.
pub split_header_lines-continued :
    (block : Str) → join newline (map continued (split_header_lines block)) ≡ block
unfolding split_header_lines
split_header_lines-continued block =
    first_line (split_on newline block) (split_on-Lacks newline block) ∙ join-split_on newline block
