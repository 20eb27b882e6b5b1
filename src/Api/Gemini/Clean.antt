-- ===== src/Api/Gemini/Clean.antt =====
-- lib/ai/llm/gemini-provider.ts: what a converted schema looks like, described apart from the code.
use semantic_layer_explore.Prelude.{
  ◌≡◌, refl, ap, String, Bool, true, false, ◌&&◌, ◌||◌, not, Option, none, some, List, [], ◌∷◌,
  ◌==◌, eq_iff, filter, Bool-cases, inl, inr, if◌then◌else◌,
}
use semantic_layer_explore.Js.Json.{
  Json, null, boolean, number, string, array, object, Items, nil, cons, Fields, end, field,
}
use semantic_layer_explore.Api.Gemini.{
  kept, put, text_entry, object_entry, normalize_schema, normalize_items, normalize_fields,
  normalize_entry, normalize_values,
}

abbrev pub keys_of_fields : Fields → List String
keys_of_fields end = []
keys_of_fields (field key v rest) = key ∷ keys_of_fields rest

abbrev pub own_keys : Json → List String
own_keys (object fs) = keys_of_fields fs
own_keys _ = []

-- `additionalProperties` is the one key that Gemini does not take.
abbrev pub is_taken : String → Bool
is_taken key = not (key == "additionalProperties")

module _ (upper : String → String) where
  unfoldable mutual
    -- No schema, at any depth, has the key `additionalProperties`, and every type is in upper case.
    pub is_clean : Json → Bool
    is_clean (array items) = are_clean items
    is_clean (object fs) = has_clean_fields fs
    is_clean null = true
    is_clean (boolean b) = true
    is_clean (number n) = true
    is_clean (string s) = true

    pub are_clean : Items → Bool
    are_clean nil = true
    are_clean (cons v rest) = is_clean v && are_clean rest

    pub has_clean_fields : Fields → Bool
    has_clean_fields end = true
    has_clean_fields (field key v rest) = is_clean_entry key v && has_clean_fields rest

    pub is_clean_entry : String → Json → Bool
    is_clean_entry key null = is_taken key
    is_clean_entry key (boolean b) = is_taken key
    is_clean_entry key (number n) = is_taken key
    is_clean_entry key (string s) = is_taken key && (not (key == "type") || (upper s == s))
    is_clean_entry key (array items) = is_taken key && are_clean items
    is_clean_entry key (object fs) =
        is_taken key && (if key == "properties" then has_clean_values fs else has_clean_fields fs)

    -- Under `properties` any key is a name, and its value a schema.
    pub has_clean_values : Fields → Bool
    has_clean_values end = true
    has_clean_values (field key v rest) = is_clean v && has_clean_values rest

is_taken-type : (key : String) → key == "type" ≡ true → is_taken key ≡ true
is_taken-type key h = rw ((eq_iff key "type").0 h) refl

is_taken-properties : (key : String) → key == "properties" ≡ true → is_taken key ≡ true
is_taken-properties key h = rw ((eq_iff key "properties").0 h) refl

module _ (upper : String → String) (twice : (s : String) → upper (upper s) ≡ upper s) where
  abbrev IsCleanEntry : String → Option Json → Type 0
  IsCleanEntry key none = Unit
  IsCleanEntry key (some v) = is_clean_entry upper key v ≡ true

  put-clean :
      (key : String) (o : Option Json) (rest : Fields)
      → IsCleanEntry key o
      → has_clean_fields upper rest ≡ true
      → has_clean_fields upper (put key o rest) ≡ true
  unfolding has_clean_fields
  put-clean key none rest h k = k
  put-clean key (some v) rest h k = rw (h, k) refl

  kept-clean :
      (key : String) (v : Json)
      → (is_taken key ≡ true → is_clean_entry upper key v ≡ true)
      → IsCleanEntry key (kept key v)
  kept-clean key v h = elim (Bool-cases (key == "additionalProperties")) [
    | inl out ↦ rw out tt
    | inr stays ↦ rw stays (h (rw stays refl))
  ]

  text-clean : (key text : String) → IsCleanEntry key (text_entry upper key text)
  unfolding is_clean_entry
  text-clean key text = elim (Bool-cases (key == "type")) [
    | inl typed ↦
        let same : upper (upper text) == upper text ≡ true =
          (eq_iff (upper (upper text)) (upper text)).1 (twice text) in
        rw typed (rw (typed, same, is_taken-type key typed) refl)
    | inr other ↦ rw other (kept-clean key (string text) λ t. rw (other, t) refl)
  ]

  object-clean :
      (key : String) (values fields : Fields)
      → has_clean_values upper values ≡ true
      → has_clean_fields upper fields ≡ true
      → IsCleanEntry key (object_entry key values fields)
  unfolding is_clean_entry
  object-clean key values fields h k = elim (Bool-cases (key == "properties")) [
    | inl named ↦ rw named (rw (named, h, is_taken-properties key named) refl)
    | inr other ↦ rw other (kept-clean key (object fields) λ t. rw (other, k, t) refl)
  ]

  mutual
    unfolding normalize_schema normalize_items normalize_fields normalize_entry normalize_values
        is_clean are_clean has_clean_fields has_clean_values is_clean_entry

    pub schema-clean : (s : Json) → is_clean upper (normalize_schema upper s) ≡ true
    schema-clean null = refl
    schema-clean (boolean b) = refl
    schema-clean (number n) = refl
    schema-clean (string s) = refl
    schema-clean (array items) = items-clean items
    schema-clean (object fs) = fields-clean fs

    items-clean : (is : Items) → are_clean upper (normalize_items upper is) ≡ true
    items-clean nil = refl
    items-clean (cons v rest) = rw (schema-clean v, items-clean rest) refl

    fields-clean : (fs : Fields) → has_clean_fields upper (normalize_fields upper fs) ≡ true
    fields-clean end = refl
    fields-clean (field key v rest) =
        put-clean key (normalize_entry upper key v) (normalize_fields upper rest)
          (entry-clean key v) (fields-clean rest)

    entry-clean : (key : String) (v : Json) → IsCleanEntry key (normalize_entry upper key v)
    entry-clean key null = kept-clean key null λ t. t
    entry-clean key (boolean b) = kept-clean key (boolean b) λ t. t
    entry-clean key (number n) = kept-clean key (number n) λ t. t
    entry-clean key (string s) = text-clean key s
    entry-clean key (array items) =
        kept-clean key (array (normalize_items upper items)) λ t. rw (t, items-clean items) refl
    entry-clean key (object fs) =
        object-clean key (normalize_values upper fs) (normalize_fields upper fs) (values-clean fs)
          (fields-clean fs)

    values-clean : (fs : Fields) → has_clean_values upper (normalize_values upper fs) ≡ true
    values-clean end = refl
    values-clean (field key v rest) = rw (schema-clean v, values-clean rest) refl

module _ (upper : String → String) where
  abbrev Listed : String → Option Json → Type 0
  Listed key none = is_taken key ≡ false
  Listed key (some v) = is_taken key ≡ true

  kept-Listed : (key : String) (v : Json) → Listed key (kept key v)
  kept-Listed key v = elim (Bool-cases (key == "additionalProperties")) [
    | inl out ↦ rw out (rw out refl)
    | inr stays ↦ rw stays (rw stays refl)
  ]

  entry-Listed : (key : String) (v : Json) → Listed key (normalize_entry upper key v)
  unfolding normalize_entry
  entry-Listed key null = kept-Listed key null
  entry-Listed key (boolean b) = kept-Listed key (boolean b)
  entry-Listed key (number n) = kept-Listed key (number n)
  entry-Listed key (string s) = elim (Bool-cases (key == "type")) [
    | inl typed ↦ rw typed (is_taken-type key typed)
    | inr other ↦ rw other (kept-Listed key (string s))
  ]
  entry-Listed key (array items) = kept-Listed key (array (normalize_items upper items))
  entry-Listed key (object fs) = elim (Bool-cases (key == "properties")) [
    | inl named ↦ rw named (is_taken-properties key named)
    | inr other ↦ rw other (kept-Listed key (object (normalize_fields upper fs)))
  ]

  keys_of_put :
      (key : String) (o : Option Json) (rest : Fields) (keys : List String)
      → Listed key o
      → keys_of_fields rest ≡ filter is_taken keys
      → keys_of_fields (put key o rest) ≡ filter is_taken (key ∷ keys)
  unfolding filter
  keys_of_put key none rest keys h k = rw h k
  keys_of_put key (some v) rest keys h k = rw h (ap (λ x. key ∷ x) k)

  fields-keys :
      (fs : Fields)
      → keys_of_fields (normalize_fields upper fs) ≡ filter is_taken (keys_of_fields fs)
  unfolding normalize_fields filter
  fields-keys end = refl
  fields-keys (field key v rest) =
      keys_of_put key (normalize_entry upper key v) (normalize_fields upper rest)
        (keys_of_fields rest) (entry-Listed key v) (fields-keys rest)

  pub schema-keys : (s : Json) → own_keys (normalize_schema upper s) ≡ filter is_taken (own_keys s)
  unfolding normalize_schema filter
  schema-keys null = refl
  schema-keys (boolean b) = refl
  schema-keys (number n) = refl
  schema-keys (string s) = refl
  schema-keys (array items) = refl
  schema-keys (object fs) = fields-keys fs
