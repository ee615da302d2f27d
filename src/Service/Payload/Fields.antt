-- ===== src/Service/Payload/Fields.antt =====
-- Payloads that are built field by field are read back field by field.
use mem_service.Base.{
  ℕ, suc, ◌+◌, ◌-◌, ◌≤◌, ◌<◌, ◌≡◌, ◌≢◌, refl, sym, ap, ◌∙◌, Bool, true, false, Option, none, some,
  List, [], ◌∷◌, ◌++◌, map, append_assoc, append-nil, Option-cases, All, All-append, length, take,
  drop, leb, ◌==◌, if◌then◌else◌, inl, inr, Bool-cases, arith,
}
use mem_service.Base.Text.{Text, NoNul, c_str, text_eq, text_eq→eq}
use mem_service.Service.Keys.Distinct.{c_str-eq_of_NoNul}
use mem_service.Service.Payload.{
  cons_line, lines, byte_is, names_field, non_empty, value_of, first_value, wire_payload_get_string,
  has_byte, first_header_value, payload_get_header_string, wire_payload_append_field,
}

abbrev pub Field : Type 0
Field = Text × Text

-- A name without `=`, a value that is not empty, and no newline in either.
abbrev pub NameByte : ℕ → Type 0
NameByte c = (c ≢ 0) × (c ≢ b'=') × (c ≢ b'\n')

abbrev pub ValueByte : ℕ → Type 0
ValueByte c = (c ≢ 0) × (c ≢ b'\n')

abbrev pub IsField : Field → Type 0
IsField (name, value) = All NameByte name × All ValueByte value × (value ≢ [])

abbrev line : Field → Text
line (name, value) = name ++ (b'=' ∷ value)

unfoldable pub unlines : List Field → Text
unlines [] = []
unlines (f ∷ fs) = line f ++ (b'\n' ∷ unlines fs)

-- The fields are appended one by one to an array of `payload_len` bytes.
unfoldable pub append_all : Text → ℕ → List Field → Option Text
append_all payload payload_len [] = some payload
append_all payload payload_len ((name, value) ∷ fs) =
    elim (wire_payload_append_field payload payload_len name value) [
      | none ↦ none
      | some payload' ↦ append_all payload' payload_len fs
    ]

-- The first value under a name, as much of it as the reader has room for.
unfoldable pub assoc : Text → ℕ → List Field → Option Text
assoc name out_len [] = none
assoc name out_len ((n, v) ∷ fs) =
    let rest = assoc name out_len fs in
    if text_eq n name then non_empty (take (out_len - 1) v) else rest

lines-append :
    (xs ys : Text) → All (λ c. ◌≢◌ {A = ℕ} c b'\n') xs → lines (xs ++ (b'\n' ∷ ys)) ≡ xs ∷ lines ys
unfolding lines cons_line
lines-append [] ys h = refl
lines-append (c ∷ xs) ys (h, hs) = ground (arith, lines-append xs ys hs)

All-mono : (P Q : ℕ → Type 0) (xs : Text) → ((c : ℕ) → P c → Q c) → All P xs → All Q xs
All-mono P Q [] f h = tt
All-mono P Q (c ∷ cs) f (h, hs) = (f c h, All-mono P Q cs f hs)

line_bytes : (f : Field) → IsField f → All ValueByte (line f)
line_bytes (name, value) (n, v, _) =
    All-append ValueByte name (b'=' ∷ value)
      (All-mono NameByte ValueByte name (λ c h. (h.0, h.2)) n) ((omega arith, omega arith), v)

lines-unlines : (fs : List Field) → All IsField fs → lines (unlines fs) ≡ map line fs ++ ([] ∷ [])
unfolding lines unlines
lines-unlines [] h = refl
lines-unlines (f ∷ fs) (h, hs) =
    lines-append (line f) (unlines fs)
      (All-mono ValueByte (λ c. ◌≢◌ {A = ℕ} c b'\n') (line f) (λ c p. p.1) (line_bytes f h))
    ∙ ap (◌∷◌ (line f)) (lines-unlines fs hs)

names_field-line :
    (name n v : Text)
    → All NameByte name
    → All NameByte n
    → names_field name (n ++ (b'=' ∷ v)) ≡ text_eq n name
unfolding byte_is text_eq
names_field-line [] [] v h k = refl
names_field-line [] (c ∷ n) v h k = ground (arith, k.0)
names_field-line (d ∷ name) [] v h k = ground (arith, h.0)
names_field-line (d ∷ name) (c ∷ n) v h k = ground (arith, names_field-line name n v h.1 k.1)

drop-line : (n v : Text) → drop (suc (length n)) (n ++ (b'=' ∷ v)) ≡ v
drop-line [] v = refl
drop-line (c ∷ n) v = drop-line n v

-- The line of the field that is looked for gives its value.
value_of-line :
    (name n v : Text) (out_len : ℕ)
    → text_eq n name ≡ true
    → value_of name out_len (n ++ (b'=' ∷ v)) ≡ non_empty (take (out_len - 1) v)
value_of-line name n v out_len e =
    let same = sym (text_eq→eq n name e) in
    let past : length name + 1 ≡ suc (length n) = omega (arith, ap length same) in
    ap (λ w. non_empty (take (out_len - 1) w))
      (ap (λ k. drop k (n ++ (b'=' ∷ v))) past ∙ drop-line n v)

has_byte-line : (n v : Text) → has_byte b'=' (n ++ (b'=' ∷ v)) ≡ true
unfolding has_byte
has_byte-line [] v = refl
has_byte-line (c ∷ n) v = ground (arith, has_byte-line n v)

has_byte-name : (n : Text) → All NameByte n → has_byte b'=' n ≡ false
unfolding has_byte
has_byte-name [] h = refl
has_byte-name (c ∷ n) (h, hs) = ground (arith, has_byte-name n hs)

first_value-lines :
    (name : Text) (out_len : ℕ) (fs : List Field)
    → All NameByte name
    → All IsField fs
    → first_value name out_len (map line fs ++ ([] ∷ [])) ≡ assoc name out_len fs
unfolding first_value assoc byte_is
first_value-lines name out_len [] h k = ground arith
first_value-lines name out_len ((n, v) ∷ fs) h (f, k) =
    rw (names_field-line name n v h f.0, first_value-lines name out_len fs h k)
      (elim (Bool-cases (text_eq n name)) [
        | inl same ↦ rw same (value_of-line name n v out_len same)
        | inr differ ↦ rw differ refl
      ])

first_header_value-lines :
    (name : Text) (out_len : ℕ) (fs : List Field)
    → All NameByte name
    → All IsField fs
    → first_header_value name out_len (map line fs ++ ([] ∷ [])) ≡ assoc name out_len fs
unfolding first_header_value assoc has_byte
first_header_value-lines name out_len [] h k = refl
first_header_value-lines name out_len ((n, v) ∷ fs) h (f, k) =
    rw
      (
        has_byte-line n v,
        has_byte-name name h,
        names_field-line name n v h f.0,
        first_header_value-lines name out_len fs h k,
      )
      (elim (Bool-cases (text_eq n name)) [
        | inl same ↦ rw same (value_of-line name n v out_len same)
        | inr differ ↦ rw differ refl
      ])

unlines-append :
    (fs : List Field) (f : Field) → unlines (fs ++ f ∷ []) ≡ unlines fs ++ (line f ++ (b'\n' ∷ []))
unfolding unlines
unlines-append [] f = refl
unlines-append (g ∷ fs) f =
    ap (λ t. line g ++ (b'\n' ∷ t)) (unlines-append fs f)
    ∙ sym (append_assoc (line g) (b'\n' ∷ unlines fs) (line f ++ (b'\n' ∷ [])))

unlines-NoNul : (fs : List Field) → All IsField fs → NoNul (unlines fs)
unfolding unlines
unlines-NoNul [] h = tt
unlines-NoNul (f ∷ fs) (h, hs) =
    All-append (λ c. c ≢ 0) (line f) (b'\n' ∷ unlines fs)
      (All-mono ValueByte (λ c. c ≢ 0) (line f) (λ c p. p.0) (line_bytes f h))
      (omega arith, unlines-NoNul fs hs)

appended :
    (a b c : Bool) (x y : Text) {p : Text}
    → b ≡ false
    → (if a then none else if b then some x else if c then none else some y) ≡ some p
    → (p ≡ y) × (c ≡ false)
appended a b c x y h e = ground arith

pub length-ne-zero : (t : Text) → t ≢ [] → (length t == 0) ≡ false
length-ne-zero [] h = absurd (h refl)
length-ne-zero (c ∷ t) h = ground arith

-- A payload that is built of fields is the fields' lines.
append_field-unlines :
    (fs : List Field) (payload_len : ℕ) (name value : Text) {p : Text}
    → All IsField fs
    → IsField (name, value)
    → wire_payload_append_field (unlines fs) payload_len name value ≡ some p
    → (p ≡ unlines (fs ++ (name, value) ∷ [])) × (length p < payload_len)
unfolding wire_payload_append_field unlines
append_field-unlines fs payload_len name value h f e =
    let whole = c_str-eq_of_NoNul (unlines fs) (unlines-NoNul fs h) in
    let named = c_str-eq_of_NoNul name (All-mono NameByte (λ c. c ≢ 0) name (λ c q. q.0) f.0) in
    let valued = c_str-eq_of_NoNul value (All-mono ValueByte (λ c. c ≢ 0) value (λ c q. q.0) f.1) in
    let text = unlines fs ++ (name ++ (b'=' ∷ (value ++ (b'\n' ∷ [])))) in
    let (same, room) =
      appended (payload_len == 0) (length value == 0) (leb payload_len (length text)) (unlines fs)
        text (length-ne-zero value f.2) (rw (whole, named, valued) at e) in
    (
      same
          ∙ sym (
              unlines-append fs (name, value)
              ∙ ap (λ t. unlines fs ++ t) (append_assoc name (b'=' ∷ value) (b'\n' ∷ []))),
      rw same (ground arith),
    )

append_all-unlines :
    (fs gs : List Field) (payload_len : ℕ) {p : Text}
    → All IsField fs
    → All IsField gs
    → append_all (unlines fs) payload_len gs ≡ some p
    → p ≡ unlines (fs ++ gs)
unfolding append_all
append_all-unlines fs [] payload_len {p} h k e =
    let same : unlines fs ≡ p = cc in sym same ∙ ap unlines (sym (append-nil fs))
append_all-unlines fs ((name, value) ∷ gs) payload_len {p} h (f, k) e =
    elim (Option-cases (wire_payload_append_field (unlines fs) payload_len name value)) [
      | inl full ↦ absurd (let e' : none ≡ some p = rw (full, append_all) at e in ground arith)
      | inr (q, one) ↦
          let (same, _) = append_field-unlines fs payload_len name value h f one in
          let e' : append_all q payload_len gs ≡ some p = rw (one, append_all) at e in
          append_all-unlines (fs ++ (name, value) ∷ []) gs payload_len
            (All-append IsField fs ((name, value) ∷ []) h (f, tt)) k
            (ap (λ t. append_all t payload_len gs) (sym same) ∙ e')
          ∙ ap unlines (append_assoc fs ((name, value) ∷ []) gs)
    ]

-- When fields, whose names have no NUL, no `=` and no newline, and whose values are not empty and have
-- no NUL and no newline, are appended to an empty payload and all fit, both readers, with room for at
-- least a NUL, give a name of such bytes the first value under it, cut to that room, unless nothing is
-- left of it, and no value to a name that no field has.
pub append_all-get_string :
    (fs : List Field) (payload_len : ℕ) (name : Text) (out_len : ℕ) {p : Text}
    → All IsField fs
    → All NameByte name
    → 1 ≤ out_len
    → append_all [] payload_len fs ≡ some p
    → (wire_payload_get_string p name out_len ≡ assoc name out_len fs)
      × (payload_get_header_string p name out_len ≡ assoc name out_len fs)
unfolding wire_payload_get_string payload_get_header_string unlines
append_all-get_string fs payload_len name out_len {p} h k room e =
    let built = append_all-unlines [] fs payload_len tt h e in
    let named = c_str-eq_of_NoNul name (All-mono NameByte (λ c. c ≢ 0) name (λ c q. q.0) k) in
    let read : c_str p ≡ unlines fs =
      ap c_str built ∙ c_str-eq_of_NoNul (unlines fs) (unlines-NoNul fs h) in
    let split = ap lines read ∙ lines-unlines fs h in
    let some_room : (out_len == 0) ≡ false = ground arith in
    (
      rw (some_room, named, split) (first_value-lines name out_len fs k h),
      rw (some_room, named, split) (first_header_value-lines name out_len fs k h),
    )
