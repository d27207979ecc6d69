-- ===== src/Json/Strict.antt =====
-- What the strict reading of JSON accepts: no key twice in any object, at any depth.
use ea_trading_system.Prelude.{
  String, ◌≡◌, refl, sym, ap, ◌∙◌, Bool, true, false, not, ◌&&◌, ◌||◌, ◌==◌, arith, eq_iff,
  if◌then◌else◌,
}
use ea_trading_system.Errors.{ok, err, value_error, ok_path, ◌>>=◌, >>=-eq-ok}
use ea_trading_system.Json.{
  Value, Items, Fields, Raw, RawItems, RawPairs, null, bool, num, str, constant, arr, obj, nil,
  cons, end, field, pair, has_key, append, insert_all, reject_duplicates, read_value, read_items,
  read_pairs,
}

module _ {F : Type 0} where
  -- No key stands twice.
  abbrev pub unique : Fields F → Bool
  unique end = true
  unique (field k v rest) = not (has_key k rest) && unique rest

  -- No key of the second dictionary is a key of the first.
  abbrev apart : Fields F → Fields F → Bool
  apart result end = true
  apart result (field k v rest) = not (has_key k result) && apart result rest

  abbrev extend : Fields F → Fields F → Fields F
  extend result end = result
  extend result (field k v rest) = extend (append result k v) rest

  has_key-append :
      (j k : String) (v : Value F) (r : Fields F)
      → has_key j (append r k v) ≡ (has_key j r || k == j)
  has_key-append j k v end = ground arith
  has_key-append j k v (field i w r) = ground (arith, has_key-append j k v r)

  apart-append :
      (k : String) (v : Value F) (r p : Fields F)
      → apart (append r k v) p ≡ (apart r p && not (has_key k p))
  apart-append k v r end = ground arith
  apart-append k v r (field j w p) =
      ground (arith, apart-append k v r p, has_key-append j k v r, eq_iff k j, eq_iff j k)

  insert_all-eq :
      (r p : Fields F)
      → insert_all r p ≡ (if apart r p && unique p then ok (extend r p) else err value_error)
  unfolding insert_all
  insert_all-eq r end = ground arith
  insert_all-eq r (field k v p) =
      ground (arith, insert_all-eq (append r k v) p, apart-append k v r p)

  join : Fields F → Fields F → Fields F
  join end p = p
  join (field k v r) p = field k v (join r p)

  join-append :
      (r : Fields F) (k : String) (v : Value F) (p : Fields F)
      → join (append r k v) p ≡ join r (field k v p)
  unfolding join
  join-append end k v p = refl
  join-append (field j w r) k v p = ap (field j w) (join-append r k v p)

  extend-eq-join : (r p : Fields F) → extend r p ≡ join r p
  unfolding join
  extend-eq-join r end = sym (join-end r)
    where
      join-end : (r : Fields F) → join r end ≡ r
      join-end end = refl
      join-end (field k v r) = ap (field k v) (join-end r)
  extend-eq-join r (field k v p) = extend-eq-join (append r k v) p ∙ join-append r k v p

  apart-end : (p : Fields F) → apart end p ≡ true
  apart-end end = refl
  apart-end (field k v p) = apart-end p

  -- The pairs of an object are accepted, all of them in their order, exactly when no key stands
  -- twice; otherwise the reading raises a ValueError.
  pub reject_duplicates_lem :
      (p : Fields F) → reject_duplicates p ≡ (if unique p then ok p else err value_error)
  unfolding reject_duplicates join
  reject_duplicates_lem p = ground (arith, insert_all-eq end p, apart-end p, extend-eq-join end p)

-- No object of the value has a key twice, at any depth.
abbrev mutual
  pub strict : {F : Type 0} → Value F → Bool
  strict null = true
  strict (bool b) = true
  strict (num n) = true
  strict (str s) = true
  strict (arr xs) = strict_items xs
  strict (obj fs) = unique fs && strict_fields fs

  pub strict_items : {F : Type 0} → Items F → Bool
  strict_items nil = true
  strict_items (cons x xs) = strict x && strict_items xs

  pub strict_fields : {F : Type 0} → Fields F → Bool
  strict_fields end = true
  strict_fields (field k v rest) = strict v && strict_fields rest

-- A text has no key twice in any object, at any depth.
abbrev pub raw_key : {F : Type 0} → String → RawPairs F → Bool
raw_key k end = false
raw_key k (pair j x rest) = j == k || raw_key k rest

abbrev pub raw_unique : {F : Type 0} → RawPairs F → Bool
raw_unique end = true
raw_unique (pair k x rest) = not (raw_key k rest) && raw_unique rest

abbrev mutual
  pub strict_raw : {F : Type 0} → Raw F → Bool
  strict_raw null = true
  strict_raw (bool b) = true
  strict_raw (num n) = true
  strict_raw (constant token) = true
  strict_raw (str s) = true
  strict_raw (arr xs) = strict_raw_items xs
  strict_raw (obj ps) = raw_unique ps && strict_raw_pairs ps

  pub strict_raw_items : {F : Type 0} → RawItems F → Bool
  strict_raw_items nil = true
  strict_raw_items (cons x xs) = strict_raw x && strict_raw_items xs

  pub strict_raw_pairs : {F : Type 0} → RawPairs F → Bool
  strict_raw_pairs end = true
  strict_raw_pairs (pair k x rest) = strict_raw x && strict_raw_pairs rest

module _ {F : Type 0} where
  -- The pairs that are read have the keys of the text.
  read_pairs-key :
      (k : String) (x : RawPairs F) (v : Fields F) → read_pairs x ≡ ok v → has_key k v ≡ raw_key k x
  unfolding read_pairs
  read_pairs-key k end v h = ground arith
  read_pairs-key k (pair j x xs) v h =
      let (y, e, h') =
        >>=-eq-ok (read_value x) (λ y. read_pairs xs >>= λ ys. ok (field j y ys)) v h in
      let (ys, e', h'') = >>=-eq-ok (read_pairs xs) (λ ys. ok (field j y ys)) v h' in
      ap (has_key k) (sym (ok_path h'')) ∙ ap (λ b. j == k || b) (read_pairs-key k xs ys e')

  read_pairs-unique :
      (x : RawPairs F) (v : Fields F) → read_pairs x ≡ ok v → unique v ≡ raw_unique x
  unfolding read_pairs
  read_pairs-unique end v h = ground arith
  read_pairs-unique (pair j x xs) v h =
      let (y, e, h') =
        >>=-eq-ok (read_value x) (λ y. read_pairs xs >>= λ ys. ok (field j y ys)) v h in
      let (ys, e', h'') = >>=-eq-ok (read_pairs xs) (λ ys. ok (field j y ys)) v h' in
      ap unique (sym (ok_path h''))
      ∙ ap (λ b. not b && unique ys) (read_pairs-key j xs ys e')
      ∙ ap (λ b. not (raw_key j xs) && b) (read_pairs-unique xs ys e')

mutual
  unfolding read_value read_items read_pairs

  read-strict : {F : Type 0} (x : Raw F) (v : Value F) → read_value x ≡ ok v → strict v ≡ true
  read-strict null v h = ground arith
  read-strict (bool b) v h = ground arith
  read-strict (num n) v h = ground arith
  read-strict (constant token) v h = ground arith
  read-strict (str s) v h = ground arith
  read-strict (arr xs) v h =
      let (items, e, _) = >>=-eq-ok (read_items xs) (λ items. ok (arr items)) v h in
      ground (arith, read_items-strict xs items)
  read-strict (obj ps) v h =
      let (pairs, e, h') =
        >>=-eq-ok (read_pairs ps) (λ pairs. reject_duplicates pairs >>= λ r. ok (obj r)) v h in
      ground (arith, read_pairs-strict ps pairs, reject_duplicates_lem pairs)

  read_items-strict :
      {F : Type 0} (x : RawItems F) (v : Items F) → read_items x ≡ ok v → strict_items v ≡ true
  read_items-strict nil v h = ground arith
  read_items-strict (cons x xs) v h =
      let (y, e, h') = >>=-eq-ok (read_value x) (λ y. read_items xs >>= λ ys. ok (cons y ys)) v h in
      let (ys, e', _) = >>=-eq-ok (read_items xs) (λ ys. ok (cons y ys)) v h' in
      ground (arith, read-strict x y, read_items-strict xs ys)

  read_pairs-strict :
      {F : Type 0} (x : RawPairs F) (v : Fields F) → read_pairs x ≡ ok v → strict_fields v ≡ true
  read_pairs-strict end v h = ground arith
  read_pairs-strict (pair k x xs) v h =
      let (y, e, h') =
        >>=-eq-ok (read_value x) (λ y. read_pairs xs >>= λ ys. ok (field k y ys)) v h in
      let (ys, e', _) = >>=-eq-ok (read_pairs xs) (λ ys. ok (field k y ys)) v h' in
      ground (arith, read-strict x y, read_pairs-strict xs ys)

mutual
  unfolding read_value read_items read_pairs

  read-strict_raw :
      {F : Type 0} (x : Raw F) (v : Value F) → read_value x ≡ ok v → strict_raw x ≡ true
  read-strict_raw null v h = refl
  read-strict_raw (bool b) v h = refl
  read-strict_raw (num n) v h = refl
  read-strict_raw (constant token) v h = refl
  read-strict_raw (str s) v h = refl
  read-strict_raw (arr xs) v h =
      let (items, e, _) = >>=-eq-ok (read_items xs) (λ items. ok (arr items)) v h in
      read_items-strict_raw xs items e
  read-strict_raw (obj ps) v h =
      let (pairs, e, h') =
        >>=-eq-ok (read_pairs ps) (λ pairs. reject_duplicates pairs >>= λ r. ok (obj r)) v h in
      ground (
        arith,
        e,
        read_pairs-strict_raw ps pairs,
        read_pairs-unique ps pairs,
        reject_duplicates_lem pairs,
      )

  read_items-strict_raw :
      {F : Type 0} (x : RawItems F) (v : Items F) → read_items x ≡ ok v → strict_raw_items x ≡ true
  read_items-strict_raw nil v h = refl
  read_items-strict_raw (cons x xs) v h =
      let (y, e, h') = >>=-eq-ok (read_value x) (λ y. read_items xs >>= λ ys. ok (cons y ys)) v h in
      let (ys, e', _) = >>=-eq-ok (read_items xs) (λ ys. ok (cons y ys)) v h' in
      ground (arith, read-strict_raw x y e, read_items-strict_raw xs ys e')

  read_pairs-strict_raw :
      {F : Type 0} (x : RawPairs F) (v : Fields F) → read_pairs x ≡ ok v → strict_raw_pairs x ≡ true
  read_pairs-strict_raw end v h = refl
  read_pairs-strict_raw (pair k x xs) v h =
      let (y, e, h') =
        >>=-eq-ok (read_value x) (λ y. read_pairs xs >>= λ ys. ok (field k y ys)) v h in
      let (ys, e', _) = >>=-eq-ok (read_pairs xs) (λ ys. ok (field k y ys)) v h' in
      ground (arith, read-strict_raw x y e, read_pairs-strict_raw xs ys e')

-- A JSON text that is read has no key twice in any of its objects, at any depth, and neither has the
-- value: a text with a repeated key is rejected.
pub read_value-strict :
    {F : Type 0} (x : Raw F) (v : Value F)
    → read_value x ≡ ok v
    → (strict_raw x ≡ true) × (strict v ≡ true)
read_value-strict x v h = (read-strict_raw x v h, read-strict x v h)
