-- ===== src/Schema/Shape.antt =====
-- What the schema that is loaded looks like.
use reqable_mcp.Prelude.{
  ℕ, String, ◌≡◌, ◌⊎◌, refl, ap, ◌∙◌, Bool, true, false, not, Option, none, some, List, [], ◌∷◌,
  All, str_eq, eq_iff, arith, if◌then◌else◌, Bool-cases, inl, inr,
}
use reqable_mcp.Prelude.Result.{Result, ok, err, Error, value_error, index_error, ◌>>=◌, >>=-eq-ok}
use reqable_mcp.Prelude.Dict
use reqable_mcp.Prelude.Dict.{Dict}
use reqable_mcp.FlatBuffers.{
  Bytes, Table, field_at, u32, root_table_offset, parse_table, read_string_field,
}
use reqable_mcp.Schema.{
  Entity, is_meta_key, except, ends_with, or_zero, entity_name, best_props, entity_of, parse_entity,
  add_entity, load_schema, catches,
}
use reqable_mcp.Schema.Properties.{IsList, or_none-some, past_test, best_props-IsList}

-- An entity is named as one, and has at most 200 properties.
pub record IsEntity (e : Entity) : Type 0 where
  pub named : ends_with e.name "Entity" ≡ true
  pub properties : IsList e.properties

caught_text :
    (y : Error) (name : String)
    → (if catches index_error y then ok "" else err y) ≡ ok name
    → name ≡ ""
caught_text y name h = ground arith

named_text :
    (r : Result String) (name : String)
    → except index_error "" (r >>= λ n. ok (if ends_with n "Entity" then n else "")) ≡ ok name
    → (name ≡ "") ⊎ (ends_with name "Entity" ≡ true)
named_text (err y) name h = inl (caught_text y name h)
named_text (ok n) name h = elim (Bool-cases (ends_with n "Entity")) [
  | inl good ↦ let e : name ≡ n = ground arith in inr (ap (λ s. ends_with s "Entity") e ∙ good)
  | inr bad ↦ inl (ground arith)
]

module _ (decode : Bytes → String) (buf : Bytes) where
  entity_of-IsEntity :
      (t : Table) (name : String) (e : Entity)
      → (name ≡ "") ⊎ (ends_with name "Entity" ≡ true)
      → entity_of decode buf t name ≡ ok (some e)
      → IsEntity e
  unfolding entity_of
  entity_of-IsEntity t name e named h =
      let (ne, h₁) = past_test (str_eq name "") _ e h in
      let (props, found, h₂) = >>=-eq-ok (best_props decode buf t.fields []) _ h₁ in
      let (eid, _, h₃) =
        >>=-eq-ok (except index_error 0 (or_zero (u32 buf) (field_at 1 t.fields))) _ h₂ in
      let made : e ≡ record { eid = eid; name = name; properties = props } = cc in
      rw made (record {
        named = elim named [ inl empty ↦ ground (arith, eq_iff name "") | inr good ↦ good ];
        properties = best_props-IsList decode buf t.fields [] props (omega arith, tt) found;
      })

  entity_name-named :
      (o : Option ℕ) (name : String)
      → entity_name decode buf o ≡ ok name
      → (name ≡ "") ⊎ (ends_with name "Entity" ≡ true)
  entity_name-named none name h = inl (cc)
  entity_name-named (some off) name h = named_text (read_string_field decode buf off) name h

  parse_entity-IsEntity : (e : Entity) → parse_entity decode buf ≡ ok (some e) → IsEntity e
  unfolding parse_entity
  parse_entity-IsEntity e h =
      let (t, _, h₁) = or_none-some value_error (root_table_offset buf >>= parse_table buf) _ e h in
      let (name, named, h₂) = >>=-eq-ok (entity_name decode buf (field_at 3 t.fields)) _ h₁ in
      entity_of-IsEntity t name e (entity_name-named (field_at 3 t.fields) name named) h₂

-- An entry of the schema: the entity under its own name.
abbrev pub IsEntry : String × Entity → Type 0
IsEntry (k, e) = (e.name ≡ k) × IsEntity e

put-All :
    (d : Dict Entity) (e : Entity) → IsEntity e → All IsEntry d → All IsEntry (Dict.put d e.name e)
unfolding Dict.put
put-All [] e good all = ((refl, good), tt)
put-All ((j, f) ∷ d) e good (first, all) = elim (Bool-cases (str_eq j e.name)) [
  | inl same ↦ rw same ((ground (arith, eq_iff j e.name), good), all)
  | inr other ↦ rw other (first, put-All d e good all)
]

add_entity-All :
    (o : Option Entity) (d : Dict Entity)
    → ((e : Entity) → o ≡ some e → IsEntity e)
    → All IsEntry d
    → All IsEntry (add_entity o d)
add_entity-All none d f all = all
add_entity-All (some e) d f all = put-All d e (f e refl) all

stopped :
    (test : Bool) (rest : Result (Dict Entity)) (out d : Dict Entity)
    → (if test then ok out else rest) ≡ ok d
    → (d ≡ out) ⊎ (rest ≡ ok d)
stopped true rest out d h = inl (cc)
stopped false rest out d h = inr h

load_schema_from :
    (decode : Bytes → String) (entries : List (Bytes × Bytes)) (out d : Dict Entity)
    → All IsEntry out
    → load_schema decode entries out ≡ ok d
    → All IsEntry d
unfolding load_schema
load_schema_from decode [] out d all h = let e : d ≡ out = cc in rw e all
load_schema_from decode ((key, val) ∷ entries) out d all h =
    elim (stopped (not (is_meta_key key)) _ out d h) [
      | inl same ↦ rw same all
      | inr goes_on ↦
          let (ent, found, h₁) = >>=-eq-ok (parse_entity decode val) _ goes_on in
          load_schema_from decode entries (add_entity ent out) d
            (add_entity-All ent out (λ e q. parse_entity-IsEntity decode val e (found ∙ ap ok q))
              all)
            h₁
    ]

-- Whatever bytes the metadata holds, a schema that is loaded has each entity under its own name, which
-- ends in "Entity", with at most 200 properties, each of which has a name of printable characters
-- that is not empty and a type code of 16 bits.
pub load_schema-IsEntry :
    (decode : Bytes → String) (entries : List (Bytes × Bytes)) (d : Dict Entity)
    → load_schema decode entries [] ≡ ok d
    → All IsEntry d
load_schema-IsEntry decode entries d h = load_schema_from decode entries [] d tt h
