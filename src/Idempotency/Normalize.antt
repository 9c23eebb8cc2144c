-- ===== src/Idempotency/Normalize.antt =====
-- `_normalizeData` of ticket-service/src/helpers/IdempotencyHelper.js: the data of a key without its
-- dynamic fields and with its fields in order. No field of an object has a number for a name and no
-- name twice; a value that is no object is the text that stands for it.
use metro_backend.Prelude.{
  ◌≡◌, refl, sym, ap, ◌∙◌, Bool, true, false, ◌||◌, ltb, ◌==◌, List, [], ◌∷◌, any, Text, text_eq,
  if◌then◌else◌, arith,
}

mutual
  pub data Value : Type 0 where
    leaf : Text → Value
    object : Fields → Value

  pub data Fields : Type 0 where
    done : Fields
    field : Text → Value → Fields → Fields

-- The names that are left out.
abbrev pub dynamic_fields : List Text
dynamic_fields =
    (b't' ∷ b'i' ∷ b'm' ∷ b'e' ∷ b's' ∷ b't' ∷ b'a' ∷ b'm' ∷ b'p' ∷ [])
    ∷ (b'r' ∷ b'e' ∷ b'q' ∷ b'u' ∷ b'e' ∷ b's' ∷ b't' ∷ b'I' ∷ b'd' ∷ [])
    ∷ (b's' ∷ b'e' ∷ b's' ∷ b's' ∷ b'i' ∷ b'o' ∷ b'n' ∷ b'I' ∷ b'd' ∷ [])
    ∷ (b'c' ∷ b'r' ∷ b'e' ∷ b'a' ∷ b't' ∷ b'e' ∷ b'd' ∷ b'A' ∷ b't' ∷ [])
    ∷ (b'u' ∷ b'p' ∷ b'd' ∷ b'a' ∷ b't' ∷ b'e' ∷ b'd' ∷ b'A' ∷ b't' ∷ [])
    ∷ (b'i' ∷ b'p' ∷ [])
    ∷ (b'u' ∷ b's' ∷ b'e' ∷ b'r' ∷ b'A' ∷ b'g' ∷ b'e' ∷ b'n' ∷ b't' ∷ [])
    ∷ (b'r' ∷ b'e' ∷ b'q' ∷ b'u' ∷ b'e' ∷ b's' ∷ b't' ∷ b'T' ∷ b'i' ∷ b'm' ∷ b'e' ∷ b's' ∷ b't'
        ∷ b'a' ∷ b'm' ∷ b'p' ∷ [])
    ∷ []

-- The order of `sort` on the names.
unfoldable pub text_le : Text → Text → Bool
text_le [] ds = true
text_le (c ∷ cs) [] = false
text_le (c ∷ cs) (d ∷ ds) = let rest = text_le cs ds in if c == d then rest else ltb c d

unfoldable pub insert_field : Text → Value → Fields → Fields
insert_field k v done = field k v done
insert_field k v (field l w fs) =
    let rest = insert_field k v fs in
    if text_le k l then field k v (field l w fs) else field l w rest

module _ (exclude : List Text) where
  unfoldable mutual
    pub normalize : Value → Value
    normalize (leaf t) = leaf t
    normalize (object fs) = object (normalize_fields fs)

    pub normalize_fields : Fields → Fields
    normalize_fields done = done
    normalize_fields (field k v fs) =
        let rest = normalize_fields fs in
        let value = normalize v in
        if any (text_eq k) exclude then rest else insert_field k value rest

abbrev pub normalize_data : Value → Value
normalize_data = normalize dynamic_fields

text_le_total : (a b : Text) → text_le a b || text_le b a ≡ true
unfolding text_le
text_le_total [] b = refl
text_le_total (c ∷ a) [] = refl
text_le_total (c ∷ a) (d ∷ b) = ground (arith, text_le_total a b)

text_le_antisym : (a b : Text) → text_le a b ≡ true → text_le b a ≡ true → text_eq a b ≡ true
unfolding text_le
text_le_antisym [] [] h k = refl
text_le_antisym [] (d ∷ b) h k = ground (arith, k)
text_le_antisym (c ∷ a) [] h k = ground (arith, h)
text_le_antisym (c ∷ a) (d ∷ b) h k = ground (arith, text_le_antisym a b, h, k)

text_le_trans : (a b c : Text) → text_le a b ≡ true → text_le b c ≡ true → text_le a c ≡ true
unfolding text_le
text_le_trans [] b c h k = refl
text_le_trans (x ∷ a) [] c h k = ground (arith, h)
text_le_trans (x ∷ a) (y ∷ b) [] h k = ground (arith, k)
text_le_trans (x ∷ a) (y ∷ b) (z ∷ c) h k = ground (arith, text_le_trans a b c, h, k)

-- Two fields of different names can be put in either way round.
insert_field_swap :
    (k l : Text) (v w : Value) (fs : Fields)
    → text_eq k l ≡ false
    → insert_field k v (insert_field l w fs) ≡ insert_field l w (insert_field k v fs)
unfolding insert_field
insert_field_swap k l v w done h = ground (arith, h, text_le_total k l, text_le_antisym k l)
insert_field_swap k l v w (field m x fs) h = ground (
  arith,
  h,
  insert_field_swap k l v w fs,
  text_le_total k l,
  text_le_antisym k l,
  text_le_trans k l m,
  text_le_trans l k m,
)

module _ (exclude : List Text) where
  -- Data that differ in the order of their fields, at any depth, and in excluded fields.
  mutual
    pub data SameValue : Value → Value → Type 0 where
      same_leaf : (t : Text) → SameValue (leaf t) (leaf t)
      same_object : (fs gs : Fields) → SameFields fs gs → SameValue (object fs) (object gs)

    pub data SameFields : Fields → Fields → Type 0 where
      same_done : SameFields done done
      same_field :
          (k : Text) (v w : Value) (fs gs : Fields)
          → SameValue v w
          → SameFields fs gs
          → SameFields (field k v fs) (field k w gs)
      swapped :
          (k l : Text) (v w : Value) (fs : Fields)
          → text_eq k l ≡ false
          → SameFields (field k v (field l w fs)) (field l w (field k v fs))
      dropped :
          (k : Text) (v : Value) (fs : Fields)
          → any (text_eq k) exclude ≡ true
          → SameFields (field k v fs) fs
      back : (fs gs : Fields) → SameFields fs gs → SameFields gs fs
      joined : (fs gs hs : Fields) → SameFields fs gs → SameFields gs hs → SameFields fs hs

  mutual
    unfolding normalize normalize_fields

    normalize_value-same : (v w : Value) → SameValue v w → normalize exclude v ≡ normalize exclude w
    normalize_value-same _ _ (same_leaf t) = refl
    normalize_value-same _ _ (same_object fs gs m) = ap object (normalize_fields-same fs gs m)

    normalize_fields-same :
        (fs gs : Fields)
        → SameFields fs gs
        → normalize_fields exclude fs ≡ normalize_fields exclude gs
    normalize_fields-same _ _ same_done = refl
    normalize_fields-same _ _ (same_field k v w fs gs m n) =
        rw (normalize_value-same v w m, normalize_fields-same fs gs n) refl
    normalize_fields-same _ _ (swapped k l v w fs h) = ground (
      arith,
      insert_field_swap k l (normalize exclude v) (normalize exclude w)
          (normalize_fields exclude fs),
      h,
    )
    normalize_fields-same _ _ (dropped k v fs h) = rw h refl
    normalize_fields-same _ _ (back fs gs m) = sym (normalize_fields-same fs gs m)
    normalize_fields-same _ _ (joined fs gs hs m n) =
        normalize_fields-same fs gs m ∙ normalize_fields-same gs hs n

  -- Data that differ in the order of the fields of their objects, at any depth, and in excluded fields
  -- only are normalized to the same.
  normalize-same : (v w : Value) → SameValue v w → normalize exclude v ≡ normalize exclude w
  normalize-same v w m = normalize_value-same v w m
