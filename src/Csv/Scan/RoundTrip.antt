-- ===== src/Csv/Scan/RoundTrip.antt =====
-- csvdb/scan.go's `split` on rows printed as RFC 4180 has them.
use ip2geo.Base.{
  ℕ, ◌≡◌, ◌≢◌, refl, sym, ap, ◌∙◌, Bool, true, false, Bool-cases, inl, inr, subst, List, [], ◌∷◌,
  ◌++◌, ◌==◌, All, ok, arith, if◌then◌else◌,
}
use mathlib.Core.List.{append_assoc, append-nil}
use ip2geo.Csv.Scan.{
  quote, comma, Place, at_start, plain, quoted, closing, step_at, end_at, split_from, split,
}

-- A field, and whether it is printed in quotes.
pub record Printed : Type 0 where
  pub in_quotes : Bool
  pub text : List ℕ

-- An unquoted field has neither quotes nor commas.
abbrev pub IsPlain : List ℕ → Type 0
IsPlain f = All (λ c. (c ≢ quote) × (c ≢ comma)) f

abbrev pub IsPrintable : Printed → Type 0
IsPrintable p = p.in_quotes ≡ false → IsPlain p.text

-- Quotes are doubled.
unfoldable pub escaped : List ℕ → List ℕ
escaped [] = []
escaped (c ∷ f) = if c == quote then quote ∷ quote ∷ escaped f else c ∷ escaped f

unfoldable pub print_field : Printed → List ℕ
print_field p = if p.in_quotes then quote ∷ (escaped p.text ++ (quote ∷ [])) else p.text

-- The first field, and the others, each behind a comma.
unfoldable pub print_row : Printed → List Printed → List ℕ
print_row p [] = print_field p
print_row p (q ∷ ps) = print_field p ++ (comma ∷ print_row q ps)

abbrev pub texts : List Printed → List (List ℕ)
texts [] = []
texts (p ∷ ps) = p.text ∷ texts ps

append_one : (a : List ℕ) (c : ℕ) (b : List ℕ) → (a ++ (c ∷ [])) ++ b ≡ a ++ (c ∷ b)
append_one a c b = append_assoc a (c ∷ []) b

run_plain :
    (row : List (List ℕ)) (field f rest : List ℕ)
    → IsPlain f
    → split_from (record { place = plain; row = row; field = field }) (f ++ rest)
      ≡ split_from (record { place = plain; row = row; field = field ++ f }) rest
unfolding split_from step_at
run_plain row field [] rest h = rw append-nil refl
run_plain row field (c ∷ f) rest h =
    let t : (c == quote) ≡ false = ground (arith, h.0.0) in
    let u : (c == comma) ≡ false = ground (arith, h.0.1) in
    rw (t, u)
      (run_plain row (field ++ (c ∷ [])) f rest h.1
        ∙ ap (λ g. split_from (record { place = plain; row = row; field = g }) rest)
            (append_one field c f))

run_quoted :
    (row : List (List ℕ)) (field f rest : List ℕ)
    → split_from (record { place = quoted; row = row; field = field }) (escaped f ++ (quote ∷ rest))
      ≡ split_from (record { place = closing; row = row; field = field ++ f }) rest
unfolding split_from step_at escaped
run_quoted row field [] rest = rw append-nil refl
run_quoted row field (c ∷ f) rest = elim (Bool-cases (c == quote)) [
  | inl t ↦
      let e : c ≡ quote = ground arith in
      rw t (
        run_quoted row (field ++ (quote ∷ [])) f rest
        ∙ ap (λ g. split_from (record { place = closing; row = row; field = g }) rest)
            (append_one field quote f ∙ ap (λ d. field ++ (d ∷ f)) (sym e)))
  | inr u ↦
      rw (u, u)
        (run_quoted row (field ++ (c ∷ [])) f rest
          ∙ ap (λ g. split_from (record { place = closing; row = row; field = g }) rest)
              (append_one field c f))
]

-- Behind a printed field, the splitter holds its text and is at a place where the field may end.
record EndsField (row : List (List ℕ)) (p : Printed) (rest : List ℕ) : Type 0 where
  place : Place
  open_end : place ≢ quoted
  run :
      split_from (record { place = at_start; row = row; field = [] }) (print_field p ++ rest)
      ≡ split_from (record { place = place; row = row; field = p.text }) rest

print_field-EndsField :
    (row : List (List ℕ)) (p : Printed) (rest : List ℕ) → IsPrintable p → EndsField row p rest
unfolding print_field split_from step_at
print_field-EndsField row p rest h = go p.in_quotes p.text refl refl
  where
    go : (b : Bool) (f : List ℕ) → p.in_quotes ≡ b → p.text ≡ f → EndsField row p rest
    go true f e ef = record {
      place = closing;
      open_end = λ q. ground arith;
      run = rw (e, append_assoc (escaped p.text) (quote ∷ []) rest) (run_quoted row [] p.text rest);
    }
    go false [] e ef = record {
      place = at_start;
      open_end = λ q. ground arith;
      run = rw (e, ef) refl;
    }
    go false (c ∷ f) e ef =
        let plain_text = subst IsPlain ef (h e) in
        let t : (c == quote) ≡ false = ground (arith, plain_text.0.0) in
        let u : (c == comma) ≡ false = ground (arith, plain_text.0.1) in
        record {
          place = plain;
          open_end = λ q. ground arith;
          run = rw (e, ef, t, u) (run_plain row (c ∷ []) f rest plain_text.1);
        }

end_of_line :
    (p : Place) (row : List (List ℕ)) (f : List ℕ)
    → p ≢ quoted
    → split_from (record { place = p; row = row; field = f }) [] ≡ ok (row ++ (f ∷ []))
unfolding split_from end_at
end_of_line at_start row f ne = refl
end_of_line plain row f ne = refl
end_of_line quoted row f ne = absurd (ne refl)
end_of_line closing row f ne = refl

end_of_field :
    (p : Place) (row : List (List ℕ)) (f rest : List ℕ)
    → p ≢ quoted
    → split_from (record { place = p; row = row; field = f }) (comma ∷ rest)
      ≡ split_from (record { place = at_start; row = row ++ (f ∷ []); field = [] }) rest
unfolding split_from step_at
end_of_field at_start row f rest ne = refl
end_of_field plain row f rest ne = refl
end_of_field quoted row f rest ne = absurd (ne refl)
end_of_field closing row f rest ne = refl

split_row :
    (row : List (List ℕ)) (p : Printed) (ps : List Printed)
    → IsPrintable p
    → All IsPrintable ps
    → split_from (record { place = at_start; row = row; field = [] }) (print_row p ps)
      ≡ ok (row ++ texts (p ∷ ps))
unfolding print_row
split_row row p [] h hs =
    let e = print_field-EndsField row p [] h in
    ap (split_from (record { place = at_start; row = row; field = [] }))
      (sym (append-nil (print_field p)))
    ∙ e.run
    ∙ end_of_line e.place row p.text e.open_end
split_row row p (q ∷ ps) h hs =
    let e = print_field-EndsField row p (comma ∷ print_row q ps) h in
    e.run
    ∙ end_of_field e.place row p.text (print_row q ps) e.open_end
    ∙ split_row (row ++ (p.text ∷ [])) q ps hs.0 hs.1
    ∙ ap ok (append_assoc row (p.text ∷ []) (texts (q ∷ ps)))

-- A row of fields printed with any of them in quotes, their quotes doubled, and with no quote or comma
-- in the others, is split into its fields again.
pub split-print_row :
    (p : Printed) (ps : List Printed)
    → IsPrintable p
    → All IsPrintable ps
    → split (print_row p ps) ≡ ok (texts (p ∷ ps))
unfolding split
split-print_row p ps h hs = split_row [] p ps h hs
