-- ===== src/Service/Payload/Values.antt =====
-- What a reader of a payload answers fits its array, is not empty and holds no NUL.
use mem_service.Base.{
  ℕ, ◌+◌, ◌-◌, ◌≤◌, ◌<◌, ◌≡◌, ◌≢◌, subst, not, ◌&&◌, none, some, List, [], ◌∷◌, All, All-drop,
  length, length-take-le, take, drop, ◌==◌, inl, inr, Bool-cases, arith,
}
use mem_service.Base.Text.{Text, NoNul, NoNul-take, c_str, c_str-NoNul}
use mem_service.Service.Payload.{
  cons_line, lines, non_empty, value_of, first_header_value, has_byte, names_field,
  payload_get_header_string,
}

abbrev pub IsValue : ℕ → Text → Type 0
IsValue n v = (v ≢ []) × NoNul v × (length v < n)

cons_line-NoNul : (c : ℕ) (ls : List Text) → c ≢ 0 → All NoNul ls → All NoNul (cons_line c ls)
unfolding cons_line
cons_line-NoNul c [] h k = ((h, tt), tt)
cons_line-NoNul c (l ∷ ls) h (k, ks) = ((h, k), ks)

lines-NoNul : (s : Text) → NoNul s → All NoNul (lines s)
unfolding lines
lines-NoNul [] h = (tt, tt)
lines-NoNul (c ∷ cs) (h, hs) = elim (Bool-cases (c == b'\n')) [
  | inl end ↦ rw end (tt, lines-NoNul cs hs)
  | inr more ↦ rw more (cons_line-NoNul c (lines cs) h (lines-NoNul cs hs))
]

non_empty-some : (t : Text) {v : Text} → non_empty t ≡ some v → (t ≡ v) × (v ≢ [])
non_empty-some [] e = absurd (ground arith)
non_empty-some (c ∷ cs) e = (cc, λ h. absurd (ground arith))

value_of-IsValue :
    (name l : Text) (n : ℕ) {v : Text} → 1 ≤ n → NoNul l → value_of name n l ≡ some v → IsValue n v
value_of-IsValue name l n {v} room h e =
    let t = drop (length name + 1) l in
    let (same, some_text) = non_empty-some (take (n - 1) t) e in
    (
      some_text,
      subst NoNul same (NoNul-take (n - 1) t (All-drop (λ c. c ≢ 0) (length name + 1) l h)),
      subst (λ w. length w < n) same (omega (arith, length-take-le (n - 1) t)),
    )

first_header_value-IsValue :
    (name : Text) (n : ℕ) (ls : List Text) {v : Text}
    → 1 ≤ n
    → All NoNul ls
    → first_header_value name n ls ≡ some v
    → IsValue n v
unfolding first_header_value
first_header_value-IsValue name n [] room h e = absurd (ground arith)
first_header_value-IsValue name n (l ∷ ls) {v} room (h, hs) e =
    elim (Bool-cases (has_byte b'=' l)) [
      | inr end ↦ absurd (let e' : none ≡ some v = rw end at e in ground arith)
      | inl field ↦ elim (Bool-cases (names_field name l && not (has_byte b'=' name))) [
        | inl named ↦ value_of-IsValue name l n room h (rw (field, named) at e)
        | inr other ↦ first_header_value-IsValue name n ls room hs (rw (field, other) at e)
      ]
    ]

pub payload_get_header_string-IsValue :
    (payload name : Text) (n : ℕ) {v : Text}
    → payload_get_header_string payload name n ≡ some v
    → IsValue n v
unfolding payload_get_header_string
payload_get_header_string-IsValue payload name n {v} e = elim (Bool-cases (n == 0)) [
  | inl no_room ↦ absurd (let e' : none ≡ some v = rw no_room at e in ground arith)
  | inr room ↦
      first_header_value-IsValue (c_str name) n (lines (c_str payload)) (ground arith)
        (lines-NoNul (c_str payload) (c_str-NoNul payload)) (rw room at e)
]
