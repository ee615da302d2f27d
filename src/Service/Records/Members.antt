-- ===== src/Service/Records/Members.antt =====
-- The members of a group: each block hash stands in the array once.
use mem_service.Base.{
  ℕ, zero, suc, ◌+◌, ◌≤◌, ◌<◌, min, ◌≡◌, refl, sym, subst, ap, ◌∙◌, inl, inr, ◌||◌, true, false,
  none, some, List, [], ◌∷◌, ◌++◌, length, take, set, length-set, Bool-cases, leb, arith, ◌%◌, ◌^◌,
}
use mem_service.Base.Text.{
  Text, strlen, text_eq, c_str, strncmp_eq, strncmp_eq_iff, snprintf_text, c_str-snprintf_text,
}
use mem_service.Service.{Record, max_group_members}
use mem_service.Service.Records.{contains_hash, members, has_member, append_member, add_member}

abbrev pub DistinctHashes : List Text → Type 0
DistinctHashes [] = Unit
DistinctHashes (h ∷ hs) = (contains_hash h hs ≡ false) × DistinctHashes hs

pub record MembersValid (r : Record) : Type 0 where
  pub within : r.member_count ≤ max_group_members
  pub slots : length r.member_block_hashes ≡ max_group_members
  pub distinct : DistinctHashes (members r)

strncmp_eq_sym : (a b : Text) → strncmp_eq 96 a b ≡ strncmp_eq 96 b a
strncmp_eq_sym a b =
    let there = strncmp_eq_iff 96 a b in
    let back = strncmp_eq_iff 96 b a in
    elim (Bool-cases (strncmp_eq 96 a b)) [
      | inl e ↦ e ∙ sym (back.1 (sym (there.0 e)))
      | inr e ↦ elim (Bool-cases (strncmp_eq 96 b a)) [
        | inl e' ↦ there.1 (sym (back.0 e')) ∙ sym e'
        | inr e' ↦ e ∙ sym e'
      ]
    ]

contains_hash-append :
    (x : Text) (hs : List Text) (y : Text)
    → contains_hash x (hs ++ y ∷ []) ≡ contains_hash x hs || strncmp_eq 96 y x
unfolding contains_hash
contains_hash-append x [] y = ground arith
contains_hash-append x (h ∷ hs) y = ground (arith, contains_hash-append x hs y)

-- Of two texts that are compared alike, either may be looked for.
pub contains_hash_alike :
    (x y : Text) (hs : List Text)
    → take 96 (c_str x) ≡ take 96 (c_str y)
    → contains_hash x hs ≡ contains_hash y hs
unfolding contains_hash
contains_hash_alike x y [] e = refl
contains_hash_alike x y (h ∷ hs) e = rw (e, contains_hash_alike x y hs e) refl

DistinctHashes-append :
    (hs : List Text) (x : Text)
    → DistinctHashes hs
    → contains_hash x hs ≡ false
    → DistinctHashes (hs ++ x ∷ [])
unfolding contains_hash
DistinctHashes-append [] x d h = (refl, tt)
DistinctHashes-append (y ∷ hs) x (fresh, d) h = (
  rw (contains_hash-append y hs x) (ground (arith, strncmp_eq_sym x y)),
  DistinctHashes-append hs x d (ground arith),
)

take-set_last {ℓ} :
    {A : Type ℓ} (n : ℕ) (xs : List A) (a : A)
    → n < length xs
    → take (suc n) (set xs n a) ≡ take n xs ++ a ∷ []
take-set_last zero [] a h = elim h [ ]
take-set_last zero (x ∷ xs) a h = refl
take-set_last (suc n) [] a h = elim h [ ]
take-set_last (suc n) (x ∷ xs) a h = ap (◌∷◌ x) (take-set_last n xs a (omega arith))

members-append_member :
    (r : Record) (x : Text)
    → MembersValid r
    → r.member_count < max_group_members
    → members (append_member r x) ≡ members r ++ snprintf_text 96 x ∷ []
unfolding append_member
members-append_member r x v room =
    let one : min ((r.member_count + 1) % 2 ^ 32) max_group_members ≡ suc r.member_count =
      ground arith in
    let old : min r.member_count max_group_members ≡ r.member_count = ground arith in
    rw (one, old)
      (take-set_last r.member_count r.member_block_hashes (snprintf_text 96 x)
        (omega (arith, v.slots, room)))

module _ (r : Record) (x : Text) (v : MembersValid r) (fits : strlen x < 96) where
  pub append_member-MembersValid :
      has_member r x ≡ false → r.member_count < max_group_members → MembersValid (append_member r x)
  unfolding has_member append_member
  append_member-MembersValid fresh room = record {
    within = omega (arith, room);
    slots = length-set r.member_block_hashes r.member_count (snprintf_text 96 x) ∙ v.slots;
    distinct = rw (members-append_member r x v room) (
        DistinctHashes-append (members r) (snprintf_text 96 x) v.distinct (
          contains_hash_alike (snprintf_text 96 x) x (members r)
            (ap (take 96) (c_str-snprintf_text 96 x fits))
          ∙ fresh));
  }

  -- A hash is added at most once, and a group that is full takes no new one.
  pub add_member-MembersValid : {r' : Record} → add_member r x ≡ some r' → MembersValid r'
  unfolding add_member
  add_member-MembersValid {r'} e = elim (Bool-cases (has_member r x)) [
    | inl old ↦
        let same : r ≡ r' = let e' : some r ≡ some r' = rw old at e in ground arith in
        subst MembersValid same v
    | inr fresh ↦ elim (Bool-cases (leb max_group_members r.member_count)) [
      | inl full ↦ absurd (let e' : none ≡ some r' = rw (fresh, full) at e in ground arith)
      | inr room ↦
          let e' : some (append_member r x) ≡ some r' = rw (fresh, room) at e in
          let same : append_member r x ≡ r' = ground arith in
          subst MembersValid same (append_member-MembersValid fresh (ground arith))
    ]
  ]

  -- A text that is compared like a member is one.
  known_member :
      (y : Text) → has_member r x ≡ true → has_member r y ≡ has_member r y || strncmp_eq 96 x y
  unfolding has_member
  known_member y old = elim (Bool-cases (strncmp_eq 96 x y)) [
    | inl same ↦
        let there : contains_hash y (members r) ≡ true =
          sym (contains_hash_alike x y (members r) ((strncmp_eq_iff 96 x y).0 same)) ∙ old in
        rw (same, there) refl
    | inr other ↦ rw other (ground arith)
  ]

  -- What is added is a member, and so is what was.
  pub has_member-add_member :
      {r' : Record} (y : Text)
      → add_member r x ≡ some r'
      → has_member r' y ≡ has_member r y || strncmp_eq 96 x y
  unfolding add_member append_member has_member
  has_member-add_member {r'} y e = elim (Bool-cases (has_member r x)) [
    | inl old ↦
        let e' : some r ≡ some r' = rw old at e in
        let same : r ≡ r' = ground arith in rw (← same) (known_member y old)
    | inr fresh ↦ elim (Bool-cases (leb max_group_members r.member_count)) [
      | inl full ↦ absurd (let e' : none ≡ some r' = rw (fresh, full) at e in ground arith)
      | inr room ↦
          let e' : some (append_member r x) ≡ some r' = rw (fresh, room) at e in
          let same : append_member r x ≡ r' = ground arith in
          rw (← same) (
            ap (contains_hash y) (members-append_member r x v (ground arith))
            ∙ contains_hash-append y (members r) (snprintf_text 96 x)
            ∙ ap (λ t. contains_hash y (members r) || text_eq (take 96 t) (take 96 (c_str y)))
                (c_str-snprintf_text 96 x fits))
    ]
  ]
