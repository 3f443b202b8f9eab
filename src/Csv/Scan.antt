-- ===== src/Csv/Scan.antt =====
-- csvdb/scan.go: `split`, the fields of one line, and the line ends that `next` takes off. The code
-- finds the next quote or comma by IndexByte and copies what lies before it; here its bytes are
-- taken one at a time, in the state that the code's position stands for.
pub mod RoundTrip
use ip2geo.Base.{
  ℕ, Bool, true, false, List, [], ◌∷◌, ◌++◌, ◌==◌, Result, ok, err, panic, ◌>>=◌, if◌then◌else◌,
}

abbrev pub quote : ℕ
quote = b'"'

abbrev pub comma : ℕ
comma = b','

-- ErrSyntax, by what the line breaks.
pub data SplitError : Type 0 where
  unterminated_quote text_after_quote quote_in_field : SplitError

-- At the start of a field, in an unquoted one, in a quoted one, or behind a quote in a quoted one,
-- which may close it or be the first of two.
pub data Place : Type 0 where
  at_start plain quoted closing : Place

-- `row` is `s.row` so far, and `field` the bytes of the open field.
pub record Splitter : Type 0 where
  pub place : Place
  pub row : List (List ℕ)
  pub field : List ℕ

-- `s.row = append(s.row, …)`, and on to the next field.
abbrev pub next_field : Splitter → Splitter
next_field s = record { place = at_start; row = s.row ++ (s.field ∷ []); field = [] }

abbrev pub grow : Splitter → Place → ℕ → Splitter
grow s p c = record s { place = p; field = s.field ++ (c ∷ []) }

unfoldable pub step_at : Place → Splitter → ℕ → Result SplitError Splitter
step_at at_start s c =
    if c == quote
    then ok (record s { place = quoted })
    else if c == comma
    then ok (next_field s)
    else ok (grow s plain c)
step_at plain s c =
    if c == quote
    then err quote_in_field
    else if c == comma
    then ok (next_field s)
    else ok (grow s plain c)
step_at quoted s c = if c == quote then ok (record s { place = closing }) else ok (grow s quoted c)
step_at closing s c =
    if c == quote
    then ok (grow s quoted quote)
    else if c == comma
    then ok (next_field s)
    else err text_after_quote

-- The end of the line.
unfoldable pub end_at : Place → Splitter → Result SplitError (List (List ℕ))
end_at quoted s = err unterminated_quote
end_at _ s = ok (s.row ++ (s.field ∷ []))

unfoldable pub split_from : Splitter → List ℕ → Result SplitError (List (List ℕ))
split_from s [] = end_at s.place s
split_from s (c ∷ line) = step_at s.place s c >>= λ s'. split_from s' line

unfoldable pub split : List ℕ → Result SplitError (List (List ℕ))
split line = split_from (record { place = at_start; row = []; field = [] }) line

-- `bytes.TrimSuffix(line, []byte{c})`.
unfoldable pub trim_suffix : ℕ → List ℕ → List ℕ
trim_suffix c [] = []
trim_suffix c (x ∷ []) = if x == c then [] else x ∷ []
trim_suffix c (x ∷ y ∷ b) = x ∷ trim_suffix c (y ∷ b)

-- A line as it is split: LF or CRLF taken off.
unfoldable pub trim_line : List ℕ → List ℕ
trim_line line = trim_suffix b'\r' (trim_suffix b'\n' line)
