-- ===== src/Api/Gemini/Request/Settings.antt =====
-- lib/ai/gemini.ts: where the settings of a request are sent.
use semantic_layer_explore.Prelude.{
  String, Bool, true, false, ◌||◌, Option, none, some, List, [], ◌∷◌, ◌==◌, ◌≡◌, ◌≢◌, refl, sym, ap,
  ◌∙◌, arith, eq_iff, if◌then◌else◌, Bool-cases, inl, inr,
}
use semantic_layer_explore.Js.Json.{
  Json, null, string, number, object, array, Fields, field, end, get_field, get_field-set_field,
}
use semantic_layer_explore.Api.Gemini.Request.{
  remove_field, move_field, instruction, wrap_text, spread, put_generation, move_fields,
  generation_config_fields, request_config,
}

abbrev pub is_listed : String → List String → Bool
is_listed j [] = false
is_listed j (k ∷ ks) = (k == j) || is_listed j ks

get_field-remove_field :
    (k j : String) (fs : Fields)
    → get_field j (remove_field k fs) ≡ (if k == j then none else get_field j fs)
unfolding get_field remove_field
get_field-remove_field k j end = ground arith
get_field-remove_field k j (field i v rest) =
    ground (arith, eq_iff k j, eq_iff i k, eq_iff i j, get_field-remove_field k j rest)

-- What a setting is after the loop, on either side.
abbrev pub left_behind : Bool → Option Json → Option Json
left_behind true v = none
left_behind false v = v

abbrev pub received : Bool → Option Json → Option Json → Option Json
received true (some v) w = some v
received _ _ w = w

abbrev pub IsMoved : String → Bool → Fields × Fields → Fields × Fields → Type 0
IsMoved j b s t =
    (get_field j t.0 ≡ left_behind b (get_field j s.0))
    × (get_field j t.1 ≡ received b (get_field j s.0) (get_field j s.1))

move_field-IsMoved :
    (j k : String) (v : Option Json) (s : Fields × Fields)
    → get_field k s.0 ≡ v
    → IsMoved j (k == j) s (move_field k v s)
move_field-IsMoved j k v s h = elim (Bool-cases (k == j)) [
  | inl e ↦ here v (ap (λ i. get_field i s.0) (sym ((eq_iff k j).0 e)) ∙ h) e
  | inr e ↦ elsewhere v e
]
  where
    here :
        (v : Option Json)
        → get_field j s.0 ≡ v
        → k == j ≡ true
        → IsMoved j (k == j) s (move_field k v s)
    here none g e = rw (e, g) (refl, refl)
    here (some v) g e =
        rw (get_field-remove_field k j s.0, get_field-set_field k j v s.1, e, g) (refl, refl)

    elsewhere : (v : Option Json) → k == j ≡ false → IsMoved j (k == j) s (move_field k v s)
    elsewhere none e = rw e (refl, refl)
    elsewhere (some v) e =
        rw (get_field-remove_field k j s.0, get_field-set_field k j v s.1, e) (refl, refl)

left_behind-or :
    (a b : Bool) (v : Option Json) → left_behind b (left_behind a v) ≡ left_behind (a || b) v
left_behind-or true true v = refl
left_behind-or true false v = refl
left_behind-or false b v = refl

received-or :
    (a b : Bool) (v w : Option Json)
    → received b (left_behind a v) (received a v w) ≡ received (a || b) v w
received-or true true none w = refl
received-or true true (some v) w = refl
received-or true false none w = refl
received-or true false (some v) w = refl
received-or false b v w = refl

IsMoved-then :
    (j : String) (a b : Bool) (s t u : Fields × Fields)
    → IsMoved j a s t
    → IsMoved j b t u
    → IsMoved j (a || b) s u
IsMoved-then j a b s t u (h, k) (m, n) = (
  m ∙ ap (left_behind b) h ∙ left_behind-or a b (get_field j s.0),
  n
      ∙ ap (λ x. received b x (get_field j t.1)) h
      ∙ ap (received b (left_behind a (get_field j s.0))) k
      ∙ received-or a b (get_field j s.0) (get_field j s.1),
)

move_fields-IsMoved :
    (j : String) (ks : List String) (s : Fields × Fields)
    → IsMoved j (is_listed j ks) s (move_fields ks s)
unfolding move_fields
move_fields-IsMoved j [] s = (refl, refl)
move_fields-IsMoved j (k ∷ ks) s =
    let t = move_field k (get_field k s.0) s in
    IsMoved-then j (k == j) (is_listed j ks) s t (move_fields ks t)
      (move_field-IsMoved j k (get_field k s.0) s refl) (move_fields-IsMoved j ks t)

wrap_text-other :
    (j : String) (v : Option Json) (fs : Fields)
    → j ≢ "systemInstruction"
    → get_field j (wrap_text v fs) ≡ get_field j fs
wrap_text-other j (some (string text)) fs h = elim (Bool-cases ("systemInstruction" == j)) [
  | inl e ↦ absurd (h (sym ((eq_iff "systemInstruction" j).0 e)))
  | inr e ↦ rw (get_field-set_field "systemInstruction" j (instruction text) fs, e) refl
]
wrap_text-other j none fs h = refl
wrap_text-other j (some null) fs h = refl
wrap_text-other j (some (Json.boolean b)) fs h = refl
wrap_text-other j (some (number n)) fs h = refl
wrap_text-other j (some (array a)) fs h = refl
wrap_text-other j (some (object o)) fs h = refl

abbrev pub instruction_of : Option Json → Option Json
instruction_of (some (string text)) = some (instruction text)
instruction_of v = v

wrap_text-instruction :
    (v : Option Json) (fs : Fields)
    → get_field "systemInstruction" fs ≡ v
    → get_field "systemInstruction" (wrap_text v fs) ≡ instruction_of v
wrap_text-instruction (some (string text)) fs h =
    get_field-set_field "systemInstruction" "systemInstruction" (instruction text) fs
wrap_text-instruction none fs h = h
wrap_text-instruction (some null) fs h = h
wrap_text-instruction (some (Json.boolean b)) fs h = h
wrap_text-instruction (some (number n)) fs h = h
wrap_text-instruction (some (array a)) fs h = h
wrap_text-instruction (some (object o)) fs h = h

put_generation-other :
    (j : String) (request generation : Fields)
    → j ≢ "generationConfig"
    → get_field j (put_generation (request, generation)) ≡ get_field j request
put_generation-other j request end h = refl
put_generation-other j request (field k v rest) h = elim (Bool-cases ("generationConfig" == j)) [
  | inl e ↦ absurd (h (sym ((eq_iff "generationConfig" j).0 e)))
  | inr e ↦ rw (get_field-set_field "generationConfig" j (object (field k v rest)) request, e) refl
]

-- What is read of the generation's settings once they are put back.
put_generation-same :
    (j : String) (b : Bool) (v : Option Json) (request generation : Fields)
    → get_field j generation
      ≡ received b v (get_field j (spread (get_field "generationConfig" request)))
    → get_field j (spread (get_field "generationConfig" (put_generation (request, generation))))
      ≡ received b v (get_field j (spread (get_field "generationConfig" request)))
unfolding get_field
put_generation-same j b v request (field k w rest) h =
    rw (get_field-set_field "generationConfig" "generationConfig" (object (field k w rest)) request)
      h
put_generation-same j true none request end h = refl
put_generation-same j false v request end h = refl
put_generation-same j true (some v) request end h = cc h

abbrev at_rest : String → Bool → Option Json → Option Json → Option Json
at_rest j b v settings = received b v (get_field j (spread settings))

instruction-config : ◌≢◌ {A = String} "systemInstruction" "generationConfig"
instruction-config e = cc (ap (λ k. k == "generationConfig") e)

config-instruction : ◌≢◌ {A = String} "generationConfig" "systemInstruction"
config-instruction e = cc (ap (λ k. k == "systemInstruction") e)

-- A setting of a request other than the two special ones is sent exactly once: the generation's
-- settings, eleven names, are sent inside `generationConfig` in place of what is there under the
-- name, and no longer beside it; any other setting stays where it is; and an instruction that is a
-- text is sent as its part.
pub request_config-IsSent :
    (config : Fields) (j : String)
    → j ≢ "generationConfig"
    → j ≢ "systemInstruction"
    → (get_field j (request_config config)
        ≡ left_behind (is_listed j generation_config_fields) (get_field j config))
      × (get_field j (spread (get_field "generationConfig" (request_config config)))
          ≡ received
              (is_listed j generation_config_fields)
              (get_field j config)
              (get_field j (spread (get_field "generationConfig" config))))
      × (get_field "systemInstruction" (request_config config)
          ≡ instruction_of (get_field "systemInstruction" config))
unfolding request_config
request_config-IsSent config j g i =
    let v = get_field "systemInstruction" config in
    let request = wrap_text v config in
    let start : Fields × Fields = (request, spread (get_field "generationConfig" request)) in
    let moved = move_fields generation_config_fields start in
    let b = is_listed j generation_config_fields in
    let at = λ (k : String). move_fields-IsMoved k generation_config_fields start in
    let same = at_rest j b (get_field j config) in
    let stays = (at "generationConfig").0 in
    let settings = wrap_text-other "generationConfig" v config config-instruction in
    (
      put_generation-other j moved.0 moved.1 g
          ∙ (at j).0
          ∙ ap (left_behind b) (wrap_text-other j v config i),
      put_generation-same j b (get_field j config) moved.0 moved.1 (
            (at j).1
            ∙ ap (λ x. received b x (get_field j (spread (get_field "generationConfig" request))))
                (wrap_text-other j v config i)
            ∙ ap same (sym stays))
          ∙ ap same (stays ∙ settings),
      put_generation-other "systemInstruction" moved.0 moved.1 instruction-config
          ∙ (at "systemInstruction").0
          ∙ wrap_text-instruction v config refl,
    )
