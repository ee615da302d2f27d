-- ===== src/Service/Records/Table.antt =====
-- The table of records as a map from keys: what a write to a slot does to each lookup.
use mem_service.Base.{
  ℕ, ◌≡◌, refl, subst, ◌∙◌, inl, inr, Bool, true, false, ◌&&◌, Option, none, some, List,
  get_elem?_bound, take, set, find_slot, find_slot-some, find_slot-set_found, find_slot-set_fresh,
  find_slot-set_other, Bool-cases, if◌then◌else◌, arith,
}
use mem_service.Base.Text.{Text, c_str, text_eq, text_eq→eq}
use mem_service.Service.{Record}
use mem_service.Service.Records.{holds, is_free}

-- What a lookup compares of a key.
abbrev pub key_of : Text → Text
key_of key = take 96 (c_str key)

abbrev pub same_key : Text → Text → Bool
same_key k j = text_eq (key_of k) (key_of j)

-- The test of a lookup, at the key as it is compared.
abbrev named_as : Text → Record → Bool
named_as t r = r.in_use && text_eq (key_of r.key) t

pub holds_keyed :
    (k : Text) (r : Record) → holds k r ≡ true → (r.in_use ≡ true) × (key_of r.key ≡ key_of k)
holds_keyed k r h =
    let used : r.in_use ≡ true = ground arith in
    (used, text_eq→eq (key_of r.key) (key_of k) (rw used at h))

pub holds_free : (k : Text) (r : Record) → is_free r ≡ true → holds k r ≡ false
holds_free k r h = ground arith

pub holds_named :
    (k j : Text) (r : Record) → r.in_use ≡ true → key_of r.key ≡ key_of k → holds j r ≡ same_key k j
holds_named k j r used named = rw (used, named) refl

-- Keys that are compared alike are looked up alike.
pub find_slot-same_key :
    (rs : List Record) (k j : Text) {o : Option (ℕ × Record)}
    → same_key k j ≡ true
    → find_slot (holds k) rs ≡ o
    → find_slot (holds j) rs ≡ o
find_slot-same_key rs k j {o} same e =
    subst (λ t. find_slot (named_as t) rs ≡ o) (text_eq→eq (key_of k) (key_of j) same) e

module _ (rs : List Record) (k : Text) (b : Record) (used : b.in_use ≡ true)
    (named : key_of b.key ≡ key_of k) where
  -- A record in the place of the one that had its key.
  pub find_slot-set_keyed :
      {i : ℕ} {a : Record} (j : Text)
      → find_slot (holds k) rs ≡ some (i, a)
      → find_slot (holds j) (set rs i b)
        ≡ (if same_key k j then some (i, b) else find_slot (holds j) rs)
  find_slot-set_keyed {i} {a} j found =
      let (held, hit) = find_slot-some (holds k) rs found in
      let (old_used, old_named) = holds_keyed k a hit in
      elim (Bool-cases (same_key k j)) [
        | inl same ↦ rw same (
            find_slot-set_found (holds j) rs b (find_slot-same_key rs k j same found)
              (holds_named k j b used named ∙ same))
        | inr differ ↦ rw differ (
            find_slot-set_other (holds j) rs i a b held
              (holds_named k j a old_used old_named ∙ differ)
              (holds_named k j b used named ∙ differ))
      ]

  -- A record in a free slot, where no record has its key.
  pub find_slot-set_free :
      {i : ℕ} {a : Record} (j : Text)
      → find_slot (holds k) rs ≡ none
      → find_slot is_free rs ≡ some (i, a)
      → find_slot (holds j) (set rs i b)
        ≡ (if same_key k j then some (i, b) else find_slot (holds j) rs)
  find_slot-set_free {i} {a} j missing free =
      let (held, unused) = find_slot-some is_free rs free in
      elim (Bool-cases (same_key k j)) [
        | inl same ↦ rw same (
            find_slot-set_fresh (holds j) rs i b (find_slot-same_key rs k j same missing)
              (get_elem?_bound rs i held) (holds_named k j b used named ∙ same))
        | inr differ ↦ rw differ (
            find_slot-set_other (holds j) rs i a b held (holds_free j a unused)
              (holds_named k j b used named ∙ differ))
      ]
