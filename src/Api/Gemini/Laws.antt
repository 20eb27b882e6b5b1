-- ===== src/Api/Gemini/Laws.antt =====
-- lib/ai/llm/gemini-provider.ts: which schemas the conversion of a tool's schema yields.
use semantic_layer_explore.Prelude.{
  ◌≡◌, ◌↔◌, refl, sym, ap, ◌∙◌, arith, String, true, some, ◌==◌, eq_iff, filter, Bool-cases, inl,
  inr,
}
use semantic_layer_explore.Js.Json.{
  Json, null, boolean, number, string, array, object, Items, nil, cons, Fields, end, field,
}
use semantic_layer_explore.Api.Gemini.{
  kept, normalize_schema, normalize_items, normalize_fields, normalize_entry, normalize_values,
}
use semantic_layer_explore.Api.Gemini.Clean.{
  own_keys, is_taken, is_clean, are_clean, has_clean_fields, is_clean_entry, has_clean_values,
  schema-clean, schema-keys,
}

kept-all : (key : String) (v : Json) → is_taken key ≡ true → kept key v ≡ some v
kept-all key v h = elim (Bool-cases (key == "additionalProperties")) [
  | inl out ↦ ground (arith, out, h)
  | inr stays ↦ rw stays refl
]

module _ (upper : String → String) where
  mutual
    unfolding normalize_schema normalize_items normalize_fields normalize_entry normalize_values
        is_clean are_clean has_clean_fields has_clean_values is_clean_entry

    schema-fixed : (s : Json) → is_clean upper s ≡ true → normalize_schema upper s ≡ s
    schema-fixed null h = refl
    schema-fixed (boolean b) h = refl
    schema-fixed (number n) h = refl
    schema-fixed (string s) h = refl
    schema-fixed (array items) h = ap array (items-fixed items h)
    schema-fixed (object fs) h = ap object (fields-fixed fs h)

    items-fixed : (is : Items) → are_clean upper is ≡ true → normalize_items upper is ≡ is
    items-fixed nil h = refl
    items-fixed (cons v rest) h =
        rw (schema-fixed v (ground arith), items-fixed rest (ground arith)) refl

    fields-fixed : (fs : Fields) → has_clean_fields upper fs ≡ true → normalize_fields upper fs ≡ fs
    fields-fixed end h = refl
    fields-fixed (field key v rest) h =
        rw (entry-fixed key v (ground arith), fields-fixed rest (ground arith)) refl

    entry-fixed :
        (key : String) (v : Json)
        → is_clean_entry upper key v ≡ true
        → normalize_entry upper key v ≡ some v
    entry-fixed key null h = kept-all key null h
    entry-fixed key (boolean b) h = kept-all key (boolean b) h
    entry-fixed key (number n) h = kept-all key (number n) h
    entry-fixed key (string s) h = elim (Bool-cases (key == "type")) [
      | inl typed ↦ rw typed (ap (λ t. some (string t)) ((eq_iff (upper s) s).0 (ground arith)))
      | inr other ↦ rw other (kept-all key (string s) (ground arith))
    ]
    entry-fixed key (array items) h =
        kept-all key (array (normalize_items upper items)) (ground arith)
        ∙ ap (λ is. some (array is)) (items-fixed items (ground arith))
    entry-fixed key (object fs) h = elim (Bool-cases (key == "properties")) [
      | inl named ↦ rw named (ap (λ gs. some (object gs)) (values-fixed fs (ground arith)))
      | inr other ↦ rw other (
          kept-all key (object (normalize_fields upper fs)) (ground arith)
          ∙ ap (λ gs. some (object gs)) (fields-fixed fs (ground arith)))
    ]

    values-fixed : (fs : Fields) → has_clean_values upper fs ≡ true → normalize_values upper fs ≡ fs
    values-fixed end h = refl
    values-fixed (field key v rest) h =
        rw (schema-fixed v (ground arith), values-fixed rest (ground arith)) refl

-- Where turning to upper case twice is the same as doing it once: the converted schema has, at no
-- depth, the key `additionalProperties` or a type that is not in upper case, whatever the names of
-- its properties; the schemas without these, and no others, are left as they are; and at the top the
-- keys but that one are kept in their order.
pub normalize_schema-clean :
    (upper : String → String)
    → ((text : String) → upper (upper text) ≡ upper text)
    → (s : Json)
    → (is_clean upper (normalize_schema upper s) ≡ true)
      × ((is_clean upper s ≡ true) ↔ (normalize_schema upper s ≡ s))
      × (own_keys (normalize_schema upper s) ≡ filter is_taken (own_keys s))
normalize_schema-clean upper twice s = (
  schema-clean upper twice s,
  (schema-fixed upper s, λ e. ap (is_clean upper) (sym e) ∙ schema-clean upper twice s),
  schema-keys upper s,
)
