-- ===== src/Service/Keys/Distinct.antt =====
-- What the builders of keys answer, and that keys of different records differ.
use mem_service.Base.{
  ℕ, ◌+◌, ◌<◌, ◌≡◌, ◌≢◌, refl, sym, ap, ◌∙◌, inl, inr, false, none, some, [], ◌∷◌, ◌++◌, take,
  take_all, All, All-append, drop, length, length-append, any_of, Bool-cases, ltb, if◌then◌else◌,
  guard-some, arith,
}
use mem_service.Base.Text.{Text, NoNul, c_str, strlen, codes, text_eq, text_eq→eq, c_str-NoNul}
use mem_service.Service.Keys.{
  two_part_key_refused, build_two_part_key, build_prefix_key_from_parts_checked,
  build_group_key_from_parts_checked, build_block_key_from_hash_checked, build_prefix_key,
  build_group_key, build_block_key, BlockCtx,
}

-- A text without NUL is its own `c_str`.
pub c_str-eq_of_NoNul : (s : Text) → NoNul s → c_str s ≡ s
unfolding c_str
c_str-eq_of_NoNul [] h = refl
c_str-eq_of_NoNul (c ∷ cs) h = ground (arith, c_str-eq_of_NoNul cs h.1)

module _ (prefix first middle second : Text) where
  abbrev parts : Text
  parts = c_str prefix ++ (c_str first ++ (c_str middle ++ c_str second))

  length-parts : length parts ≡ strlen prefix + strlen first + strlen middle + strlen second
  length-parts = omega (
    arith,
    length-append (c_str prefix) (c_str first ++ (c_str middle ++ c_str second)),
    length-append (c_str first) (c_str middle ++ c_str second),
    length-append (c_str middle) (c_str second),
  )

  c_str-parts : c_str parts ≡ parts
  c_str-parts = c_str-eq_of_NoNul parts (
      All-append _ (c_str prefix) _ (c_str-NoNul prefix) (
        All-append _ (c_str first) _ (c_str-NoNul first)
          (All-append _ (c_str middle) _ (c_str-NoNul middle) (c_str-NoNul second))))

  pub build_two_part_key-some :
      (out_len : ℕ) {key : Text}
      → build_two_part_key prefix first middle second out_len ≡ some key
      → (key ≡ parts)
        × (strlen key < out_len)
        × (strlen prefix + strlen first + strlen middle + strlen second < out_len)
  unfolding build_two_part_key
  build_two_part_key-some out_len {key} e =
      let refused =
        two_part_key_refused (strlen prefix) (strlen first) (strlen middle) (strlen second)
          out_len in
      let total = strlen prefix + strlen first + strlen middle + strlen second in
      let (passed, copied) =
        guard-some (any_of refused) (if ltb total out_len then some parts else none) e in
      elim (Bool-cases (ltb total out_len)) [
        | inr out ↦ absurd (let e' : none ≡ some key = rw out at copied in ground arith)
        | inl within ↦
            let e' : some parts ≡ some key = rw within at copied in
            let whole : key ≡ parts = cc in
            (whole, rw (whole, c_str-parts) (ground (arith, length-parts)), ground arith)
      ]

-- A key of at most 95 characters is compared whole.
key_whole :
    (prefix first middle second : Text) {key : Text}
    → build_two_part_key prefix first middle second 96 ≡ some key
    → take 96 (c_str key) ≡ key
key_whole prefix first middle second {key} e =
    let (whole, fits, _) = build_two_part_key-some prefix first middle second 96 e in
    take_all 96 (c_str key) (omega (arith, fits))
    ∙ ap c_str whole
    ∙ c_str-parts prefix first middle second
    ∙ sym whole

module _ (ctx : BlockCtx) {key : Text} where
  pub prefix_key_whole : build_prefix_key ctx 96 ≡ some key → take 96 (c_str key) ≡ key
  unfolding build_prefix_key build_prefix_key_from_parts_checked
  prefix_key_whole e = key_whole _ ctx.request_id _ ctx.prefix_group e

  pub group_key_whole : build_group_key ctx 96 ≡ some key → take 96 (c_str key) ≡ key
  unfolding build_group_key build_group_key_from_parts_checked
  group_key_whole e = key_whole _ ctx.request_id _ ctx.group_id e

  pub block_key_whole : build_block_key ctx 96 ≡ some key → take 96 (c_str key) ≡ key
  unfolding build_block_key build_block_key_from_hash_checked
  block_key_whole e = key_whole _ ctx.block_hash [] [] e

-- Keys that are compared whole and differ are told apart.
pub text_eq-ne :
    (k j : Text)
    → take 96 (c_str k) ≡ k
    → take 96 (c_str j) ≡ j
    → k ≢ j
    → text_eq (take 96 (c_str k)) (take 96 (c_str j)) ≡ false
text_eq-ne k j whole whole' differ =
    rw (whole, whole')
      (elim (Bool-cases (text_eq k j)) [
        | inl same ↦ absurd (differ (text_eq→eq k j same))
        | inr no_match ↦ no_match
      ])

abbrev pub NoSlash : Text → Type 0
NoSlash = All (λ c. ◌≢◌ {A = ℕ} c b'/')

-- The first slash ends the part before it.
split_slash :
    (a b x y : Text) → NoSlash a → NoSlash b → a ++ b'/' ∷ x ≡ b ++ b'/' ∷ y → (a ≡ b) × (x ≡ y)
split_slash [] [] x y h k e = ground arith
split_slash [] (d ∷ b) x y h k e = absurd (ground arith)
split_slash (c ∷ a) [] x y h k e = absurd (ground arith)
split_slash (c ∷ a) (d ∷ b) x y h k e = ground (arith, split_slash a b x y h.1 k.1)

-- A key of a request, of any kind, as one text.
module _ (request_id : Text) where
  request_key : (kind id : Text) → Text
  request_key kind id = codes "request/" ++ (c_str request_id ++ (kind ++ c_str id))

  prefix_key_parts :
      (prefix_group : Text) {key : Text}
      → build_prefix_key_from_parts_checked request_id prefix_group 96 ≡ some key
      → key ≡ request_key (codes "/prefix/") prefix_group
  unfolding build_prefix_key_from_parts_checked c_str request_key
  prefix_key_parts prefix_group e = (build_two_part_key-some _ request_id _ prefix_group 96 e).0

  group_key_parts :
      (group_id : Text) {key : Text}
      → build_group_key_from_parts_checked request_id group_id 96 ≡ some key
      → key ≡ request_key (codes "/prefix-group/") group_id
  unfolding build_group_key_from_parts_checked c_str request_key
  group_key_parts group_id e = (build_two_part_key-some _ request_id _ group_id 96 e).0

abbrev pub IdNoSlash : BlockCtx → Type 0
IdNoSlash ctx = NoSlash (c_str ctx.request_id)

request_keys :
    (r r' x y : Text)
    → NoSlash (c_str r)
    → NoSlash (c_str r')
    → codes "request/" ++ (c_str r ++ b'/' ∷ x) ≡ codes "request/" ++ (c_str r' ++ b'/' ∷ y)
    → (c_str r ≡ c_str r') × (x ≡ y)
request_keys r r' x y h k e = split_slash (c_str r) (c_str r') x y h k (ap (drop 8) e)

-- Two contexts whose request ids hold no slash have the same prefix key only for the same request
-- and prefix group.
pub build_prefix_key-injective :
    (a b : BlockCtx) (key : Text)
    → IdNoSlash a
    → IdNoSlash b
    → build_prefix_key a 96 ≡ some key
    → build_prefix_key b 96 ≡ some key
    → (c_str a.request_id ≡ c_str b.request_id) × (c_str a.prefix_group ≡ c_str b.prefix_group)
unfolding build_prefix_key request_key
build_prefix_key-injective a b key h k e e' =
    let (ids, rest) = request_keys a.request_id b.request_id _ _ h k (
      sym (prefix_key_parts a.request_id a.prefix_group e)
      ∙ prefix_key_parts b.request_id b.prefix_group e') in
    (ids, ap (drop 7) rest)

-- And the same group key only for the same request and group.
pub build_group_key-injective :
    (a b : BlockCtx) (key : Text)
    → IdNoSlash a
    → IdNoSlash b
    → build_group_key a 96 ≡ some key
    → build_group_key b 96 ≡ some key
    → (c_str a.request_id ≡ c_str b.request_id) × (c_str a.group_id ≡ c_str b.group_id)
unfolding build_group_key request_key
build_group_key-injective a b key h k e e' =
    let (ids, rest) = request_keys a.request_id b.request_id _ _ h k (
      sym (group_key_parts a.request_id a.group_id e)
      ∙ group_key_parts b.request_id b.group_id e') in
    (ids, ap (drop 13) rest)

-- A block key is told from a group key.
pub block_group_apart :
    (b c : BlockCtx) {group_key block_key : Text}
    → build_group_key b 96 ≡ some group_key
    → build_block_key c 96 ≡ some block_key
    → group_key ≢ block_key
unfolding build_group_key build_block_key build_block_key_from_hash_checked request_key c_str
block_group_apart b c e e' same =
    let g = group_key_parts b.request_id b.group_id e in
    let l = (build_two_part_key-some _ c.block_hash [] [] 96 e').0 in
    let x = sym g ∙ same ∙ l in absurd (ground (arith, x))

-- A prefix key, a group key and a block key are three keys, of whatever contexts whose request ids
-- hold no slash.
pub keys_apart :
    (a b c : BlockCtx) {prefix_key group_key block_key : Text}
    → IdNoSlash a
    → IdNoSlash b
    → build_prefix_key a 96 ≡ some prefix_key
    → build_group_key b 96 ≡ some group_key
    → build_block_key c 96 ≡ some block_key
    → (prefix_key ≢ group_key) × (prefix_key ≢ block_key) × (group_key ≢ block_key)
unfolding build_prefix_key build_group_key build_block_key build_block_key_from_hash_checked
    request_key c_str
keys_apart a b c h k e e' e'' =
    let p = prefix_key_parts a.request_id a.prefix_group e in
    let g = group_key_parts b.request_id b.group_id e' in
    let (l, _, _) = build_two_part_key-some _ c.block_hash [] [] 96 e'' in
    (
      λ same.
          let (_, rest) = request_keys a.request_id b.request_id _ _ h k (sym p ∙ same ∙ g) in
          absurd (ground (arith, rest)),
      λ same. absurd (let x = sym p ∙ same ∙ l in ground (arith, x)),
      block_group_apart b c e' e'',
    )
