-- ===== src/Build/Strings/Ids.antt =====
-- The interner's numbers: one for each string, whatever strings come after it.
use ip2geo.Base.{
  ℕ, zero, suc, ◌≡◌, refl, sym, subst, ap, ◌∙◌, Bool-cases, true, false, inl, inr, Option, none,
  some, List, [], ◌∷◌, ◌++◌, length, length-append, length-set, get_elem?, get_elem?-append_left,
  get_elem?-append_at, get_elem?-append_right, ◌-◌, get_elem?-set_same, get_elem?_bound, arith,
}
use native.Mathlib.Decide.{dec_lt}
use ip2geo.Format.Header.{bytes_eq}
use ip2geo.Build.Strings.{Str, Interner, new_interner, lookup, id, id16}

pub bytes_eq_refl : (a : List ℕ) → bytes_eq a a ≡ true
unfolding bytes_eq
bytes_eq_refl [] = refl
bytes_eq_refl (x ∷ a) = ground (arith, bytes_eq_refl a)

pub bytes_eq-eq : (a b : List ℕ) → bytes_eq a b ≡ true → a ≡ b
unfolding bytes_eq
bytes_eq-eq [] [] e = refl
bytes_eq-eq [] (y ∷ b) e = absurd (ground arith)
bytes_eq-eq (x ∷ a) [] e = absurd (ground arith)
bytes_eq-eq (x ∷ a) (y ∷ b) e = ground (arith, bytes_eq-eq a b)

-- The map and the list of strings agree, number 0 is the empty string, and each string has a flag.
pub record IsInterner (in_ : Interner) : Type 0 where
  pub flags : length in_.u16 ≡ length in_.strings
  pub first : get_elem? in_.strings 0 ≡ some []
  pub sound : (s : Str) (v : ℕ) → lookup in_.m s ≡ some v → get_elem? in_.strings v ≡ some s
  pub complete : (s : Str) (v : ℕ) → get_elem? in_.strings v ≡ some s → lookup in_.m s ≡ some v

-- Numbering `s` gives `v` and `next`: number `v` is `s` in `next`, where the strings numbered before
-- keep their numbers.
pub record IsNumbered (in_ : Interner) (s : Str) (v : ℕ) (next : Interner) : Type 0 where
  pub valid : IsInterner next
  pub numbered : get_elem? next.strings v ≡ some s
  pub kept :
      (i : ℕ) (t : Str) → get_elem? in_.strings i ≡ some t → get_elem? next.strings i ≡ some t

pub new_interner-IsInterner : IsInterner new_interner
unfolding new_interner lookup bytes_eq
new_interner-IsInterner = record { flags = refl; first = refl; sound = sound; complete = complete }
  where
    sound : (s : Str) (v : ℕ) → lookup (([], 0) ∷ []) s ≡ some v → get_elem? ([] ∷ []) v ≡ some s
    sound [] v e = let z : v ≡ 0 = ground arith in rw z
    sound (c ∷ s) v e = absurd (ground arith)

    complete : (s : Str) (v : ℕ) → get_elem? ([] ∷ []) v ≡ some s → lookup (([], 0) ∷ []) s ≡ some v
    complete s zero e =
        let z : [] ≡ s = ground arith in
        subst (λ (t : Str). lookup (([], 0) ∷ []) t ≡ some 0) z refl
    complete s (suc v) e = absurd (ground arith)

module _ (in_ : Interner) (s : Str) (h : IsInterner in_) (new : lookup in_.m s ≡ none) where
  abbrev grown : Interner
  grown = record {
    m = (s, length in_.strings) ∷ in_.m;
    strings = in_.strings ++ (s ∷ []);
    u16 = in_.u16 ++ (false ∷ []);
  }

  kept_old :
      (i : ℕ) (t : Str)
      → get_elem? in_.strings i ≡ some t
      → get_elem? (in_.strings ++ (s ∷ [])) i ≡ some t
  kept_old i t e =
      get_elem?-append_left in_.strings (s ∷ []) i (get_elem?_bound in_.strings i t e) ∙ e

  grown-IsInterner : IsInterner grown
  unfolding lookup
  grown-IsInterner = record {
    flags = omega (
      arith,
      h.flags,
      length-append {0} in_.u16 (false ∷ []),
      length-append {0} in_.strings (s ∷ []),
    );
    first = kept_old 0 [] h.first;
    sound = λ t v e. elim (Bool-cases (bytes_eq s t)) [
      | inl same ↦
          let v' : length in_.strings ≡ v = ground (arith, e, same) in
          get_elem?-append_at in_.strings s [] v (sym v') ∙ ap some (bytes_eq-eq s t same)
      | inr other ↦ kept_old v t (h.sound t v (ground (arith, e, other)))
    ];
    complete = complete;
  }
    where
      last_one : (t : Str) (j : ℕ) → get_elem? (s ∷ []) j ≡ some t → (j ≡ 0) × (s ≡ t)
      last_one t zero e = (refl, ground arith)
      last_one t (suc j) e = absurd (ground arith)

      complete :
          (t : Str) (v : ℕ)
          → get_elem? (in_.strings ++ (s ∷ [])) v ≡ some t
          → lookup grown.m t ≡ some v
      complete t v e = elim (dec_lt v (length in_.strings)) [
        | yes lt ↦
            let old = h.complete t v (sym (get_elem?-append_left in_.strings (s ∷ []) v lt) ∙ e) in
            elim (Bool-cases (bytes_eq s t)) [
              | inl same ↦
                  absurd (
                    let st = bytes_eq-eq s t same in ground (arith, new, ap (lookup in_.m) st, old))
              | inr other ↦ rw other old
            ]
        | no ge ↦
            let (z, st) = last_one t (v - length in_.strings) (
              sym (
                get_elem?-append_right in_.strings (s ∷ []) (v - length in_.strings) v
                  (omega arith))
              ∙ e) in
            let same : bytes_eq s t ≡ true =
              subst (λ (u : Str). bytes_eq s u ≡ true) st (bytes_eq_refl s) in
            rw same (ap some (omega arith))
      ]

  grown-IsNumbered : IsNumbered in_ s (length in_.strings) grown
  grown-IsNumbered = record {
    valid = grown-IsInterner;
    numbered = get_elem?-append_at in_.strings s [] (length in_.strings) refl;
    kept = kept_old;
  }

-- Numbering a string gives its number, which stays the same and is that of no other string; the strings
-- numbered before keep theirs.
pub id-IsNumbered :
    (in_ : Interner) (s : Str) → IsInterner in_ → IsNumbered in_ s (id in_ s).0 (id in_ s).1
unfolding id
id-IsNumbered in_ [] h = record { valid = h; numbered = h.first; kept = λ i t e. e }
id-IsNumbered in_ (c ∷ s) h = go (lookup in_.m (c ∷ s)) refl
  where
    go :
        (x : Option ℕ)
        → lookup in_.m (c ∷ s) ≡ x
        → IsNumbered in_ (c ∷ s) (id in_ (c ∷ s)).0 (id in_ (c ∷ s)).1
    go none e = rw e (grown-IsNumbered in_ (c ∷ s) h e)
    go (some v) e = rw e (record { valid = h; numbered = h.sound (c ∷ s) v e; kept = λ i t e'. e' })

-- Numbering a string of a 16-bit field gives its number in the same way, and flags it.
pub id16-IsNumbered :
    (in_ : Interner) (s : Str)
    → IsInterner in_
    → IsNumbered in_ s (id16 in_ s).0 (id16 in_ s).1
      × (get_elem? (id16 in_ s).1.u16 (id16 in_ s).0 ≡ some true)
unfolding id16
id16-IsNumbered in_ s h =
    let n = id-IsNumbered in_ s h in
    let next = (id in_ s).1 in
    (
      record {
        valid = record {
          flags = length-set next.u16 (id in_ s).0 true ∙ n.valid.flags;
          first = n.valid.first;
          sound = n.valid.sound;
          complete = n.valid.complete;
        };
        numbered = n.numbered;
        kept = n.kept;
      },
      get_elem?-set_same next.u16 (id in_ s).0 true
          (omega (arith, n.valid.flags, get_elem?_bound next.strings (id in_ s).0 s n.numbered)),
    )
